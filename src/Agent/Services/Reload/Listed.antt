-- ===== src/Agent/Services/Reload/Listed.antt =====
-- What one call of `addStatic`, `addBucket`, `updateBucket` or `addProxy` puts on the service list.
use mathlib.Core.Option
use tailscale_metrics_discov.Common.{
  ℕ, ◌≡◌, refl, Bool, true, List, Option, none, some, arith, Option-cases, inl, inr, if◌then◌else◌,
}
use tailscale_metrics_discov.Common.Text.{Text, ◌==◌, ==_iff}
use tailscale_metrics_discov.Common.Dict.{Dict, lookup, lookup-insert}
use tailscale_metrics_discov.Protocol.{ServiceEntry, ServiceHealthStatus}
use tailscale_metrics_discov.Config.{HealthcheckConfig, BucketService}
use tailscale_metrics_discov.Agent.Registry
use tailscale_metrics_discov.Agent.Registry.{Registry, without_health, update_health}
use tailscale_metrics_discov.Agent.HealthChecker.{
  HealthChecker, register, register_check, initial_status, unregister,
}
use tailscale_metrics_discov.Agent.Proxy.{Auth}
use tailscale_metrics_discov.Agent.Services.{
  Services, add_static, add_bucket, update_bucket, add_proxy, static_entry, bucket_service_entry,
  proxy_service_entry, bucket_store_add, proxy_store_add,
}
use tailscale_metrics_discov.Agent.Services.Consistent.{IsConsistent, is_bucket}
use tailscale_metrics_discov.Agent.Services.Reload.{reload_bucket}

-- The entry under a name, as the service list shows it.
abbrev pub listed_in : Registry → Text → Option ServiceEntry
listed_in r k = Option.map without_health (lookup k r.entries)

abbrev pub listed : Services → Text → Option ServiceEntry
listed s k = listed_in s.reg k

update_health-listed :
    (now : ℕ) (name k : Text) (h : ServiceHealthStatus) (r : Registry)
    → listed_in (update_health now name h r) k ≡ listed_in r k
unfolding update_health
update_health-listed now name k h r = elim (Option-cases (lookup name r.entries)) [
  | inl e ↦ rw (e, update_health) refl
  | inr (f, e) ↦
      rw (e, update_health)
        (ground
          (arith, e, lookup-insert name k (record f { health = some h }) r.entries, ==_iff name k))
]

register-listed :
    (now : ℕ) (name k : Text) (cfg : Option HealthcheckConfig) (h : HealthChecker) (r : Registry)
    → listed_in (register now name cfg (h, r)).1 k ≡ listed_in r k
unfolding register register_check
register-listed now name k none h r = refl
register-listed now name k (some cfg) h r =
    ground (arith, update_health-listed now name k (initial_status cfg.url) r)

-- Under one name the entry that was put, under the others what was there.
abbrev pub put : Text → ServiceEntry → Services → Text → Option ServiceEntry
put name e s k = if name == k then some e else listed s k

pub add_static-listed :
    (now : ℕ) (name k : Text) (targets : List Text) (labels : Dict Text)
    (cfg : Option HealthcheckConfig) (s : Services)
    → listed s name ≡ none
    → listed (add_static now name targets labels cfg s).0 k
      ≡ put name (static_entry name targets labels) s k
unfolding add_static Registry.add static_entry
add_static-listed now name k targets labels cfg s h =
    let e : ServiceEntry = static_entry name targets labels in
    ground (
      arith,
      h,
      lookup-insert name k e s.reg.entries,
      register-listed now name k cfg s.hc (Registry.add now e s.reg).0,
    )

pub add_proxy-listed :
    (now : ℕ) (name k target : Text) (auth : Auth) (labels : Dict Text)
    (cfg : Option HealthcheckConfig) (s : Services)
    → IsConsistent s
    → listed s name ≡ none
    → listed (add_proxy now name target auth labels cfg s).0 k
      ≡ put name (proxy_service_entry name labels) s k
unfolding add_proxy Registry.add proxy_service_entry proxy_store_add
add_proxy-listed now name k target auth labels cfg s c h =
    let e : ServiceEntry = proxy_service_entry name labels in
    ground (
      arith,
      h,
      c name,
      lookup-insert name k e s.reg.entries,
      register-listed now name k cfg s.hc (Registry.add now e s.reg).0,
    )

-- A name that is free or a bucket's.
abbrev pub is_open : Option ServiceEntry → Bool
is_open none = true
is_open (some e) = is_bucket (some e)

pub reload_bucket-listed :
    (now : ℕ) (name k : Text) (bc : BucketService) (s : Services)
    → IsConsistent s
    → is_open (listed s name) ≡ true
    → listed (reload_bucket now name bc s) k ≡ put name (bucket_service_entry name bc.labels) s k
unfolding reload_bucket add_bucket update_bucket Registry.add Registry.update bucket_service_entry
    bucket_store_add
reload_bucket-listed now name k bc s c h =
    let e : ServiceEntry = bucket_service_entry name bc.labels in
    ground (
      arith,
      h,
      c name,
      lookup-insert name k e s.reg.entries,
      register-listed now name k bc.healthcheck s.hc (Registry.add now e s.reg).0,
      register-listed now name k bc.healthcheck (unregister name s.hc)
          (Registry.update now e s.reg).0,
    )

pub add_bucket-listed :
    (now : ℕ) (name k : Text) (labels : Dict Text) (cfg : Option HealthcheckConfig) (s : Services)
    → IsConsistent s
    → listed s name ≡ none
    → listed (add_bucket now name labels cfg s).0 k
      ≡ put name (bucket_service_entry name labels) s k
unfolding add_bucket Registry.add bucket_service_entry bucket_store_add
add_bucket-listed now name k labels cfg s c h =
    let e : ServiceEntry = bucket_service_entry name labels in
    ground (
      arith,
      h,
      c name,
      lookup-insert name k e s.reg.entries,
      register-listed now name k cfg s.hc (Registry.add now e s.reg).0,
    )
