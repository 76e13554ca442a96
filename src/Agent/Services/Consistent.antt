-- ===== src/Agent/Services/Consistent.antt =====
-- The registry and the stores beside it agree on which services are buckets and which are proxies.
use tailscale_metrics_discov.Common.{
  ℕ, ◌≡◌, refl, Bool, true, false, List, Option, none, some, arith, Option-cases, inl, inr,
}
use tailscale_metrics_discov.Common.Text.{Text, ==_iff, ==_self}
use tailscale_metrics_discov.Common.Dict.{Dict, lookup, insert, has, lookup-insert, lookup-delete}
use tailscale_metrics_discov.Protocol.{ServiceType, ServiceEntry, ServiceHealthStatus}
use tailscale_metrics_discov.Config.{HealthcheckConfig}
use tailscale_metrics_discov.Agent.Registry.{Registry, add, remove, update, update_health}
use tailscale_metrics_discov.Agent.Bucket.{new_bucket}
use tailscale_metrics_discov.Agent.Proxy.{Proxy, Auth}
use tailscale_metrics_discov.Agent.HealthChecker.{
  HealthChecker, register, register_check, unregister, initial_status,
}
use tailscale_metrics_discov.Agent.Services.{
  Services, add_static, remove_static, add_bucket, update_bucket, remove_bucket, add_proxy,
  remove_proxy, static_entry, bucket_service_entry, proxy_service_entry, bucket_store_add,
  bucket_store_remove, proxy_store_add, proxy_store_remove,
}

abbrev pub is_bucket : Option ServiceEntry → Bool
is_bucket none = false
is_bucket (some e) = elim e.type [ ServiceType.bucket ↦ true | _ ↦ false ]

abbrev pub is_proxy : Option ServiceEntry → Bool
is_proxy none = false
is_proxy (some e) = elim e.type [ ServiceType.proxy ↦ true | _ ↦ false ]

-- A name is in a store exactly if the registry lists it with the store's type.
abbrev pub IsConsistent : Services → Type 0
IsConsistent s =
    (k : Text)
    → (has k s.buckets ≡ is_bucket (lookup k s.reg.entries))
      × (has k s.proxies ≡ is_proxy (lookup k s.reg.entries))

-- Health does not change the type of an entry.
pub update_health-types :
    (now : ℕ) (name k : Text) (h : ServiceHealthStatus) (r : Registry)
    → (is_bucket (lookup k (update_health now name h r).entries) ≡ is_bucket (lookup k r.entries))
      × (is_proxy (lookup k (update_health now name h r).entries) ≡ is_proxy (lookup k r.entries))
unfolding update_health
update_health-types now name k h r = elim (Option-cases (lookup name r.entries)) [
  | inl e ↦ rw (e, update_health) (refl, refl)
  | inr (f, e) ↦
      rw (e, update_health)
        (ground
          (arith, lookup-insert name k (record f { health = some h }) r.entries, ==_iff name k))
]

register-types :
    (now : ℕ) (name k : Text) (cfg : Option HealthcheckConfig) (h : HealthChecker) (r : Registry)
    → (is_bucket (lookup k (register now name cfg (h, r)).1.entries)
        ≡ is_bucket (lookup k r.entries))
      × (is_proxy (lookup k (register now name cfg (h, r)).1.entries)
          ≡ is_proxy (lookup k r.entries))
unfolding register register_check
register-types now name k none h r = (refl, refl)
register-types now name k (some cfg) h r =
    ground (arith, update_health-types now name k (initial_status cfg.url) r)

pub add_static-IsConsistent :
    (now : ℕ) (name : Text) (targets : List Text) (labels : Dict Text)
    (cfg : Option HealthcheckConfig) (s : Services)
    → IsConsistent s
    → IsConsistent (add_static now name targets labels cfg s).0
unfolding add_static add static_entry
add_static-IsConsistent now name targets labels cfg s c k =
    let e : ServiceEntry = static_entry name targets labels in
    ground (
      arith,
      c k,
      lookup-insert name k e s.reg.entries,
      ==_iff name k,
      register-types now name k cfg s.hc (add now e s.reg).0,
    )

pub add_bucket-IsConsistent :
    (now : ℕ) (name : Text) (labels : Dict Text) (cfg : Option HealthcheckConfig) (s : Services)
    → IsConsistent s
    → IsConsistent (add_bucket now name labels cfg s).0
unfolding add_bucket add bucket_service_entry bucket_store_add bucket_store_remove
add_bucket-IsConsistent now name labels cfg s c k =
    let e : ServiceEntry = bucket_service_entry name labels in
    ground (
      arith,
      c k,
      lookup-insert name k e s.reg.entries,
      lookup-insert name k new_bucket s.buckets,
      lookup-insert name name new_bucket s.buckets,
      lookup-delete name k (insert name new_bucket s.buckets),
      ==_iff name k,
      ==_self name,
      register-types now name k cfg s.hc (add now e s.reg).0,
    )

pub add_proxy-IsConsistent :
    (now : ℕ) (name target : Text) (auth : Auth) (labels : Dict Text)
    (cfg : Option HealthcheckConfig) (s : Services)
    → IsConsistent s
    → IsConsistent (add_proxy now name target auth labels cfg s).0
unfolding add_proxy add proxy_service_entry proxy_store_add proxy_store_remove
add_proxy-IsConsistent now name target auth labels cfg s c k =
    let e : ServiceEntry = proxy_service_entry name labels in
    let p : Proxy = record { target = target; auth = auth } in
    ground (
      arith,
      c k,
      lookup-insert name k e s.reg.entries,
      lookup-insert name k p s.proxies,
      lookup-insert name name p s.proxies,
      lookup-delete name k (insert name p s.proxies),
      ==_iff name k,
      ==_self name,
      register-types now name k cfg s.hc (add now e s.reg).0,
    )

pub update_bucket-IsConsistent :
    (now : ℕ) (name : Text) (labels : Dict Text) (cfg : Option HealthcheckConfig) (s : Services)
    → IsConsistent s
    → IsConsistent (update_bucket now name labels cfg s).0
unfolding update_bucket update bucket_service_entry
update_bucket-IsConsistent now name labels cfg s c k =
    let e : ServiceEntry = bucket_service_entry name labels in
    ground (
      arith,
      c k,
      c name,
      lookup-insert name k e s.reg.entries,
      ==_iff name k,
      register-types now name k cfg (unregister name s.hc) (update now e s.reg).0,
    )

pub remove_bucket-IsConsistent :
    (now : ℕ) (name : Text) (s : Services)
    → IsConsistent s
    → IsConsistent (remove_bucket now name s).0
unfolding remove_bucket remove bucket_store_remove
remove_bucket-IsConsistent now name s c k = ground (
  arith,
  c k,
  c name,
  lookup-delete name k s.reg.entries,
  lookup-delete name k s.buckets,
  ==_iff name k,
)

pub remove_proxy-IsConsistent :
    (now : ℕ) (name : Text) (s : Services)
    → IsConsistent s
    → IsConsistent (remove_proxy now name s).0
unfolding remove_proxy remove proxy_store_remove
remove_proxy-IsConsistent now name s c k = ground (
  arith,
  c k,
  c name,
  lookup-delete name k s.reg.entries,
  lookup-delete name k s.proxies,
  ==_iff name k,
)

-- `removeStatic` keeps the stores and the registry in step if the name is not that of a bucket or
-- proxy.
pub remove_static-IsConsistent :
    (now : ℕ) (name : Text) (s : Services)
    → has name s.buckets ≡ false
    → has name s.proxies ≡ false
    → IsConsistent s
    → IsConsistent (remove_static now name s).0
unfolding remove_static remove
remove_static-IsConsistent now name s nb np c k =
    ground (arith, c k, c name, lookup-delete name k s.reg.entries, ==_iff name k)
