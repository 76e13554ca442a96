-- ===== src/Agent/Services/Reload/Configured.antt =====
-- A reload as a whole: the service list becomes what the configuration says.
use mathlib.Core.Option
use tailscale_metrics_discov.Common.{
  ℕ, ◌≡◌, refl, sym, ap, ◌∙◌, subst, true, false, ◌&&◌, List, [], ◌∷◌, Option, none, some, is_some,
  arith, All, Option-cases, inl, inr,
}
use tailscale_metrics_discov.Common.Text.{Text, ==_iff, ==_self}
use tailscale_metrics_discov.Common.Dict.{Dict, lookup, has}
use tailscale_metrics_discov.Common.Sorting.{find_by, DistinctBy}
use tailscale_metrics_discov.Protocol.{ServiceEntry}
use tailscale_metrics_discov.Config.{BucketService, AgentConfig}
use tailscale_metrics_discov.Agent.Registry.{list, without_health}
use tailscale_metrics_discov.Agent.Registry.Order.{IsValid, lookup-NamedBy}
use tailscale_metrics_discov.Agent.Services.{Services}
use tailscale_metrics_discov.Agent.Services.Consistent.{IsConsistent}
use tailscale_metrics_discov.Agent.Services.Reload.{
  desired_buckets, drop_services, reload_statics, reload_buckets, reload_config_services,
}
use tailscale_metrics_discov.Agent.Services.Reload.Removal.{kept, drop_services-kept}
use tailscale_metrics_discov.Agent.Services.Reload.Buckets.{bucket_name, desired_buckets-has}
use tailscale_metrics_discov.Agent.Services.Reload.Listed.{listed, is_open}
use tailscale_metrics_discov.Agent.Services.Reload.Loops.{
  static_name, proxy_name, static_entry_of, bucket_entry_of, proxy_entry_of, first_or, Free, Open,
  reload_statics-listed, reload_buckets-listed, reload_proxies-listed,
}
use tailscale_metrics_discov.Agent.Services.Reload.Desired.{desired_buckets-distinct, none_desired}

-- No name occurs twice in the configuration, neither in a list nor across them.
pub record HasDistinctNames (cfg : AgentConfig) : Type 0 where
  pub statics : DistinctBy static_name cfg.statics
  pub buckets : DistinctBy bucket_name cfg.buckets
  pub proxies : DistinctBy proxy_name cfg.proxies
  pub static_bucket :
      (k : Text)
      → (is_some (find_by static_name k cfg.statics) && is_some (find_by bucket_name k cfg.buckets))
        ≡ false
  pub static_proxy :
      (k : Text)
      → (is_some (find_by static_name k cfg.statics) && is_some (find_by proxy_name k cfg.proxies))
        ≡ false
  pub bucket_proxy :
      (k : Text)
      → (is_some (find_by bucket_name k cfg.buckets) && is_some (find_by proxy_name k cfg.proxies))
        ≡ false

-- The entry that the configuration asks for under a name.
abbrev pub configured : AgentConfig → Text → Option ServiceEntry
configured cfg k = first_or static_entry_of (find_by static_name k cfg.statics) (
    first_or bucket_entry_of (find_by bucket_name k cfg.buckets)
      (first_or proxy_entry_of (find_by proxy_name k cfg.proxies) none))

-- A property of all members, from one of all that are found.
All-found :
    {A : Type 0} (key : A → Text) (P : A → Type 0) (as' : List A)
    → DistinctBy key as'
    → ((a : A) → find_by key (key a) as' ≡ some a → P a)
    → All P as'
unfolding find_by
All-found key P [] u h = tt
All-found key P (a ∷ as') u h = (
  h a (ground (arith, ==_self (key a))),
  All-found key P as' u.1 λ x f. h x (ground (arith, f, u.0, ==_iff (key a) (key x))),
)

kept-unwanted :
    (desired : Dict BucketService) (k : Text) (s : Services)
    → IsValid s.reg
    → has k desired ≡ false
    → kept desired (lookup k s.reg.entries) ≡ none
kept-unwanted desired k s v h = elim (Option-cases (lookup k s.reg.entries)) [
  | inl e ↦ rw e refl
  | inr (x, e) ↦
      let named : x.name ≡ k = lookup-NamedBy k s.reg.entries x v.named e in
      ground (arith, e, named, h)
]

kept-open :
    (desired : Dict BucketService) (o : Option ServiceEntry)
    → is_open (Option.map without_health (kept desired o)) ≡ true
kept-open desired none = refl
kept-open desired (some e) = ground arith

module _ (now : ℕ) (cfg : AgentConfig) (s : Services) (c : IsConsistent s) (v : IsValid s.reg)
    (u : HasDistinctNames cfg) where
  abbrev pub wanted : Dict BucketService
  wanted = (desired_buckets cfg.buckets [] []).0

  abbrev pub dropped : Services
  dropped = drop_services now wanted (list s.reg) s

  abbrev pub with_statics : Services
  with_statics = reload_statics now cfg.statics dropped

  abbrev pub with_buckets : Services
  with_buckets = reload_buckets now wanted (desired_buckets cfg.buckets [] []).1 with_statics

  dropped-listed :
      (k : Text)
      → listed dropped k ≡ Option.map without_health (kept wanted (lookup k s.reg.entries))
  dropped-listed k = ap (Option.map without_health) ((drop_services-kept now wanted s c v).1 k)

  dropped-unwanted :
      (k : Text) → is_some (find_by bucket_name k cfg.buckets) ≡ false → listed dropped k ≡ none
  unfolding lookup
  dropped-unwanted k h =
      let not_wanted : has k wanted ≡ false = desired_buckets-has k cfg.buckets [] [] ∙ rw h in
      dropped-listed k ∙ ap (Option.map without_health) (kept-unwanted wanted k s v not_wanted)

  statics-listed :
      IsConsistent with_statics
      × ((k : Text)
          → listed with_statics k
            ≡ first_or static_entry_of (find_by static_name k cfg.statics) (listed dropped k))
  statics-listed =
      reload_statics-listed now cfg.statics dropped (drop_services-kept now wanted s c v).0
        u.statics
        (All-found static_name _ cfg.statics u.statics
          λ st f. dropped-unwanted st.name (ground (arith, f, u.static_bucket st.name)))

  statics-Open : Open with_statics cfg.buckets
  statics-Open = All-found bucket_name _ cfg.buckets u.buckets λ bc f. ground (
    arith,
    f,
    u.static_bucket bc.name,
    statics-listed.1 bc.name,
    dropped-listed bc.name,
    kept-open wanted (lookup bc.name s.reg.entries),
  )

  pub buckets-listed :
      IsConsistent with_buckets
      × ((k : Text)
          → listed with_buckets k
            ≡ first_or bucket_entry_of (find_by bucket_name k cfg.buckets) (listed with_statics k))
  unfolding lookup
  buckets-listed =
      let (names, found) =
        desired_buckets-distinct cfg.buckets [] [] u.buckets (none_desired cfg.buckets) in
      let each =
        All-found bucket_name _ cfg.buckets u.buckets λ bc f. found bc.name ∙ ground (arith, f) in
      subst
        (λ order.
          IsConsistent (reload_buckets now wanted order with_statics)
          × ((k : Text)
              → listed (reload_buckets now wanted order with_statics) k
                ≡ first_or bucket_entry_of (find_by bucket_name k cfg.buckets)
                    (listed with_statics k)))
        (sym names)
        (reload_buckets-listed now wanted cfg.buckets with_statics statics-listed.0 u.buckets each
          statics-Open)

  pub proxies-Free : Free proxy_name with_buckets cfg.proxies
  proxies-Free = All-found proxy_name _ cfg.proxies u.proxies λ pc f. ground (
    arith,
    f,
    u.static_proxy pc.name,
    u.bucket_proxy pc.name,
    buckets-listed.1 pc.name,
    statics-listed.1 pc.name,
    dropped-unwanted pc.name,
  )

  -- Whatever was registered before, a reload leaves on the service list, under each name, exactly the
  -- entry that the configuration asks for, and the stores in step with the registry, if no name occurs
  -- twice in the configuration.
  pub reload-configured :
      IsConsistent (reload_config_services now cfg s)
      × ((k : Text) → listed (reload_config_services now cfg s) k ≡ configured cfg k)
  unfolding reload_config_services
  reload-configured =
      let (consistent, last) =
        reload_proxies-listed now cfg.proxies with_buckets buckets-listed.0 u.proxies
          proxies-Free in
      (
        consistent,
        λ k. ground (
          arith,
          last k,
          buckets-listed.1 k,
          statics-listed.1 k,
          dropped-unwanted k,
          u.static_bucket k,
          u.static_proxy k,
          u.bucket_proxy k,
        ),
      )
