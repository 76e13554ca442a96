-- ===== src/Agent/Services/Reload/Loops.antt =====
-- What the loops of `reloadConfigServices` over the configuration put on the service list.
use tailscale_metrics_discov.Common.{
  ℕ, ◌≡◌, refl, ap, ◌∙◌, true, List, [], ◌∷◌, Option, none, some, arith, All, Bool-cases, inl, inr,
}
use tailscale_metrics_discov.Common.Text.{Text, ==_iff}
use tailscale_metrics_discov.Common.Dict.{Dict, lookup, has}
use tailscale_metrics_discov.Common.Sorting.{find_by, DistinctBy}
use tailscale_metrics_discov.Protocol.{ServiceEntry}
use tailscale_metrics_discov.Config.{StaticService, BucketService, ProxyService}
use tailscale_metrics_discov.Agent.Services.{
  Services, add_static, add_proxy, static_entry, bucket_service_entry, proxy_service_entry,
}
use tailscale_metrics_discov.Agent.Services.Consistent.{
  IsConsistent, add_static-IsConsistent, add_bucket-IsConsistent, update_bucket-IsConsistent,
  add_proxy-IsConsistent,
}
use tailscale_metrics_discov.Agent.Services.Reload.{
  proxy_auth, reload_statics, reload_bucket, reload_buckets, reload_proxies,
}
use tailscale_metrics_discov.Agent.Services.Reload.Buckets.{bucket_name}
use tailscale_metrics_discov.Agent.Services.Reload.Listed.{
  listed, put, is_open, add_static-listed, add_proxy-listed, reload_bucket-listed,
}

abbrev pub static_name : StaticService → Text
static_name st = st.name

abbrev pub proxy_name : ProxyService → Text
proxy_name pc = pc.name

abbrev pub static_entry_of : StaticService → ServiceEntry
static_entry_of st = static_entry st.name st.targets st.labels

abbrev pub bucket_entry_of : BucketService → ServiceEntry
bucket_entry_of bc = bucket_service_entry bc.name bc.labels

abbrev pub proxy_entry_of : ProxyService → ServiceEntry
proxy_entry_of pc = proxy_service_entry pc.name pc.labels

-- The entry of the first element with a name, or else another one.
abbrev pub first_or :
    {A : Type 0} → (A → ServiceEntry) → Option A → Option ServiceEntry → Option ServiceEntry
first_or f none o = o
first_or f (some a) o = some (f a)

-- Nothing is listed under the names of a list.
abbrev pub Free : {A : Type 0} → (A → Text) → Services → List A → Type 0
Free key s = All (λ a. listed s (key a) ≡ none)

-- Names that differ from the one that was put are as free as before.
pub Free-put :
    {A : Type 0} (key : A → Text) (name : Text) (e : ServiceEntry) (s t : Services) (as' : List A)
    → ((k : Text) → listed t k ≡ put name e s k)
    → find_by key name as' ≡ none
    → Free key s as'
    → Free key t as'
unfolding find_by
Free-put key name e s t [] h f p = tt
Free-put key name e s t (a ∷ as') h f p = (
  h (key a) ∙ ground (arith, f, p.0, ==_iff name (key a), ==_iff (key a) name),
  Free-put key name e s t as' h (ground (arith, f)) p.1,
)

pub reload_statics-listed :
    (now : ℕ) (sts : List StaticService) (s : Services)
    → IsConsistent s
    → DistinctBy static_name sts
    → Free static_name s sts
    → IsConsistent (reload_statics now sts s)
      × ((k : Text)
          → listed (reload_statics now sts s) k
            ≡ first_or static_entry_of (find_by static_name k sts) (listed s k))
unfolding reload_statics find_by
reload_statics-listed now [] s c d f = (c, λ k. refl)
reload_statics-listed now (st ∷ sts) s c d f =
    let t = (add_static now st.name st.targets st.labels st.healthcheck s).0 in
    let step =
      λ (k : Text). add_static-listed now st.name k st.targets st.labels st.healthcheck s f.0 in
    let (consistent, later) =
      reload_statics-listed now sts t
        (add_static-IsConsistent now st.name st.targets st.labels st.healthcheck s c) d.1
        (Free-put static_name st.name (static_entry_of st) s t sts step d.0 f.1) in
    (consistent, λ k. ground (arith, later k, step k, d.0, ==_iff st.name k))

pub reload_proxies-listed :
    (now : ℕ) (pcs : List ProxyService) (s : Services)
    → IsConsistent s
    → DistinctBy proxy_name pcs
    → Free proxy_name s pcs
    → IsConsistent (reload_proxies now pcs s)
      × ((k : Text)
          → listed (reload_proxies now pcs s) k
            ≡ first_or proxy_entry_of (find_by proxy_name k pcs) (listed s k))
unfolding reload_proxies find_by
reload_proxies-listed now [] s c d f = (c, λ k. refl)
reload_proxies-listed now (pc ∷ pcs) s c d f =
    let auth = proxy_auth pc.auth in
    let t = (add_proxy now pc.name pc.target auth pc.labels pc.healthcheck s).0 in
    let step = λ (k : Text).
      add_proxy-listed now pc.name k pc.target auth pc.labels pc.healthcheck s c f.0 in
    let (consistent, later) =
      reload_proxies-listed now pcs t
        (add_proxy-IsConsistent now pc.name pc.target auth pc.labels pc.healthcheck s c) d.1
        (Free-put proxy_name pc.name (proxy_entry_of pc) s t pcs step d.0 f.1) in
    (consistent, λ k. ground (arith, later k, step k, d.0, ==_iff pc.name k))

reload_bucket-IsConsistent :
    (now : ℕ) (name : Text) (bc : BucketService) (s : Services)
    → IsConsistent s
    → IsConsistent (reload_bucket now name bc s)
unfolding reload_bucket
reload_bucket-IsConsistent now name bc s c = elim (Bool-cases (has name s.buckets)) [
  | inl e ↦ rw e (update_bucket-IsConsistent now name bc.labels bc.healthcheck s c)
  | inr e ↦ rw e (add_bucket-IsConsistent now name bc.labels bc.healthcheck s c)
]

abbrev pub names_of : List BucketService → List Text
names_of [] = []
names_of (bc ∷ bcs) = bc.name ∷ names_of bcs

-- The names of a list are free or stand for buckets.
abbrev pub Open : Services → List BucketService → Type 0
Open s = All (λ bc. is_open (listed s bc.name) ≡ true)

Open-put :
    (name : Text) (e : ServiceEntry) (s t : Services) (bcs : List BucketService)
    → ((k : Text) → listed t k ≡ put name e s k)
    → find_by bucket_name name bcs ≡ none
    → Open s bcs
    → Open t bcs
unfolding find_by
Open-put name e s t [] h f p = tt
Open-put name e s t (bc ∷ bcs) h f p = (
  ap is_open (h bc.name) ∙ ground (arith, f, p.0, ==_iff name bc.name, ==_iff bc.name name),
  Open-put name e s t bcs h (ground (arith, f)) p.1,
)

pub reload_buckets-listed :
    (now : ℕ) (desired : Dict BucketService) (bcs : List BucketService) (s : Services)
    → IsConsistent s
    → DistinctBy bucket_name bcs
    → All (λ bc. lookup bc.name desired ≡ some bc) bcs
    → Open s bcs
    → IsConsistent (reload_buckets now desired (names_of bcs) s)
      × ((k : Text)
          → listed (reload_buckets now desired (names_of bcs) s) k
            ≡ first_or bucket_entry_of (find_by bucket_name k bcs) (listed s k))
unfolding reload_buckets find_by
reload_buckets-listed now desired [] s c d m o = (c, λ k. refl)
reload_buckets-listed now desired (bc ∷ bcs) s c d m o =
    let t = reload_bucket now bc.name bc s in
    let step = λ (k : Text). reload_bucket-listed now bc.name k bc s c o.0 in
    let (consistent, later) =
      reload_buckets-listed now desired bcs t (reload_bucket-IsConsistent now bc.name bc s c) d.1
        m.1 (Open-put bc.name (bucket_entry_of bc) s t bcs step d.0 o.1) in
    rw (m.0, reload_buckets)
      (consistent, λ k. ground (arith, later k, step k, d.0, ==_iff bc.name k))
