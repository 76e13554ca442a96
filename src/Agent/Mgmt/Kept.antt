-- ===== src/Agent/Mgmt/Kept.antt =====
-- A change of the services that is refused leaves them as they were.
use tailscale_metrics_discov.Common.{
  ℕ, ◌≡◌, inl, inr, refl, false, List, [], ◌∷◌, Option, none, some, arith, Option-cases, Bool-cases,
}
use tailscale_metrics_discov.Common.Text.{Text, ==_self}
use tailscale_metrics_discov.Common.Dict.{Dict, lookup, insert, delete, has, lookup-insert}
use tailscale_metrics_discov.Config.{HealthcheckConfig}
use tailscale_metrics_discov.Agent.Error.{Error}
use tailscale_metrics_discov.Agent.Registry
use tailscale_metrics_discov.Agent.Bucket.{new_bucket}
use tailscale_metrics_discov.Agent.Proxy.{Auth, Proxy}
use tailscale_metrics_discov.Agent.Services.{
  Services, add_static, remove_static, add_bucket, remove_bucket, add_proxy, remove_proxy,
  bucket_store_add, bucket_store_remove, proxy_store_add, proxy_store_remove, static_entry,
  bucket_service_entry, proxy_service_entry,
}
use tailscale_metrics_discov.Agent.Services.Consistent.{IsConsistent}

-- Said of the state and the error that a change leaves.
abbrev pub Kept : Services → Services × Option Error → Type 0
Kept s (t, none) = Unit
Kept s (t, some e) = (t.reg ≡ s.reg) × (t.buckets ≡ s.buckets) × (t.proxies ≡ s.proxies)

pub Kept-add_static :
    (now : ℕ) (name : Text) (targets : List Text) (labels : Dict Text)
    (cfg : Option HealthcheckConfig) (s : Services)
    → Kept s (add_static now name targets labels cfg s)
unfolding add_static
Kept-add_static now name targets labels cfg s =
    elim (Option-cases (Registry.add now (static_entry name targets labels) s.reg).1) [
      | inl e ↦ rw (e, add_static) tt
      | inr (x, e) ↦ rw (e, add_static) (refl, refl, refl)
    ]

pub Kept-remove_static : (now : ℕ) (name : Text) (s : Services) → Kept s (remove_static now name s)
unfolding remove_static Registry.remove
Kept-remove_static now name s = ground arith

delete-insert_new :
    {V : Type 0} → (k : Text) (v : V) (m : Dict V) → has k m ≡ false → delete k (insert k v m) ≡ m
unfolding delete insert lookup
delete-insert_new k v [] h = ground (arith, ==_self k)
delete-insert_new k v ((j, w) ∷ m) h = ground (arith, h, delete-insert_new k v m)

pub Kept-add_bucket :
    (now : ℕ) (name : Text) (labels : Dict Text) (cfg : Option HealthcheckConfig) (s : Services)
    → Kept s (add_bucket now name labels cfg s)
unfolding add_bucket bucket_store_add bucket_store_remove
Kept-add_bucket now name labels cfg s = elim (Bool-cases (has name s.buckets)) [
  | inl there ↦ rw (there, add_bucket) (refl, refl, refl)
  | inr absent ↦
      (elim (Option-cases (Registry.add now (bucket_service_entry name labels) s.reg).1) [
        | inl e ↦ rw (absent, e, add_bucket) tt
        | inr (x, e) ↦
            rw (absent, e, add_bucket)
              (
                refl,
                ground (
                  arith,
                  absent,
                  lookup-insert name name new_bucket s.buckets,
                  ==_self name,
                  delete-insert_new name new_bucket s.buckets,
                ),
                refl,
              )
      ])
]

pub Kept-add_proxy :
    (now : ℕ) (name target : Text) (auth : Auth) (labels : Dict Text)
    (cfg : Option HealthcheckConfig) (s : Services)
    → Kept s (add_proxy now name target auth labels cfg s)
unfolding add_proxy proxy_store_add proxy_store_remove
Kept-add_proxy now name target auth labels cfg s =
    let p : Proxy = record { target = target; auth = auth } in
    elim (Bool-cases (has name s.proxies)) [
      | inl there ↦ rw (there, add_proxy) (refl, refl, refl)
      | inr absent ↦
          (elim (Option-cases (Registry.add now (proxy_service_entry name labels) s.reg).1) [
            | inl e ↦ rw (absent, e, add_proxy) tt
            | inr (x, e) ↦
                rw (absent, e, add_proxy)
                  (
                    refl,
                    refl,
                    ground (
                      arith,
                      absent,
                      lookup-insert name name p s.proxies,
                      ==_self name,
                      delete-insert_new name p s.proxies,
                    ),
                  )
          ])
    ]

pub Kept-remove_bucket :
    (now : ℕ) (name : Text) (s : Services) → IsConsistent s → Kept s (remove_bucket now name s)
unfolding remove_bucket Registry.remove bucket_store_remove
Kept-remove_bucket now name s c = ground (arith, c name)

pub Kept-remove_proxy :
    (now : ℕ) (name : Text) (s : Services) → IsConsistent s → Kept s (remove_proxy now name s)
unfolding remove_proxy Registry.remove proxy_store_remove
Kept-remove_proxy now name s c = ground (arith, c name)
