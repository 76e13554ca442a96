-- ===== src/Agent/Services.antt =====
-- internal/agent/server.go: how services come and go. A service lives in the registry, its bucket or
-- proxy in a store beside it, and its health check in the checker; `Services` holds the four.
-- A function returns the state that it leaves and its error.
pub mod Consistent
pub mod Reach
pub mod Orphan
pub mod Reload
pub mod Closed
pub mod Tests
use tailscale_metrics_discov.Common.{
  ℕ, ◌≡◌, Bool, true, false, not, List, [], ◌∷◌, ◌++◌, Option, none, some, is_some, if◌then◌else◌,
}
use tailscale_metrics_discov.Common.Text.{Text, text, ◌==◌}
use tailscale_metrics_discov.Common.Dict.{Dict, lookup, insert, delete, has}
use tailscale_metrics_discov.Protocol.{SdTarget, ServiceType, ServiceEntry}
use tailscale_metrics_discov.Config.{
  HealthcheckConfig, StaticService, BucketService, ProxyService, AgentConfig,
}
use tailscale_metrics_discov.Agent.Error.{
  Error, bucket_exists, bucket_not_found, proxy_exists, proxy_not_found, registering_bucket,
  registering_proxy,
}
use tailscale_metrics_discov.Agent.Registry
use tailscale_metrics_discov.Agent.Registry.{Registry}
use tailscale_metrics_discov.Agent.Bucket.{Bucket, new_bucket}
use tailscale_metrics_discov.Agent.Proxy.{Proxy, Auth}
use tailscale_metrics_discov.Agent.HealthChecker.{HealthChecker, register, unregister}

pub record Services : Type 0 where
  pub reg : Registry
  pub hc : HealthChecker
  pub buckets : Dict Bucket
  pub proxies : Dict Proxy

-- `bucketStore` and `proxyStore`
unfoldable pub bucket_store_add : Text → Bucket → Dict Bucket → Dict Bucket × Option Error
bucket_store_add name b bs =
    if has name bs then (bs, some (bucket_exists name)) else (insert name b bs, none)

unfoldable pub bucket_store_remove : Text → Dict Bucket → Dict Bucket × Option Error
bucket_store_remove name bs =
    if has name bs then (delete name bs, none) else (bs, some (bucket_not_found name))

unfoldable pub proxy_store_add : Text → Proxy → Dict Proxy → Dict Proxy × Option Error
proxy_store_add name p ps =
    if has name ps then (ps, some (proxy_exists name)) else (insert name p ps, none)

unfoldable pub proxy_store_remove : Text → Dict Proxy → Dict Proxy × Option Error
proxy_store_remove name ps =
    if has name ps then (delete name ps, none) else (ps, some (proxy_not_found name))

-- The labels that the agent sets over the configured ones.
abbrev pub label_name : Text
label_name = text "__tsd_service_name"

abbrev pub label_type : Text
label_type = text "__tsd_service_type"

abbrev pub label_path : Text
label_path = text "__metrics_path__"

unfoldable pub static_entry : Text → List Text → Dict Text → ServiceEntry
static_entry name targets labels = record {
  name = name;
  type = ServiceType.static;
  target = record { targets = targets; labels = insert label_name name labels };
  health = none;
}

abbrev pub routed_labels : Text → Text → Text → Dict Text → Dict Text
routed_labels name type path labels =
    insert label_path path (insert label_type type (insert label_name name labels))

unfoldable pub bucket_service_entry : Text → Dict Text → ServiceEntry
bucket_service_entry name labels = record {
  name = name;
  type = ServiceType.bucket;
  target = record {
    targets = text "{self}" ∷ [];
    labels =
        routed_labels name (text "bucket") (text "/bucket/" ++ (name ++ text "/metrics")) labels;
  };
  health = none;
}

unfoldable pub proxy_service_entry : Text → Dict Text → ServiceEntry
proxy_service_entry name labels = record {
  name = name;
  type = ServiceType.proxy;
  target = record {
    targets = text "{self}" ∷ [];
    labels = routed_labels name (text "proxy") (text "/proxy/" ++ (name ++ text "/metrics")) labels;
  };
  health = none;
}

-- s.hc.Register(name, hcCfg)
abbrev pub register_health : ℕ → Text → Option HealthcheckConfig → Services → Services
register_health now name cfg s =
    let (hc, reg) = register now name cfg (s.hc, s.reg) in record s { hc = hc; reg = reg }

abbrev pub unregister_health : Text → Services → Services
unregister_health name s = record s { hc = unregister name s.hc }

unfoldable pub add_static :
    ℕ → Text → List Text → Dict Text → Option HealthcheckConfig → Services → Services × Option Error
add_static now name targets labels cfg s =
    let (reg, failed) = Registry.add now (static_entry name targets labels) s.reg in
    elim failed [
      | some e ↦ (s, some e)
      | none ↦ (register_health now name cfg (record s { reg = reg }), none)
    ]

unfoldable pub remove_static : ℕ → Text → Services → Services × Option Error
remove_static now name s =
    let t = unregister_health name s in
    let (reg, failed) = Registry.remove now name t.reg in (record t { reg = reg }, failed)

unfoldable pub add_bucket :
    ℕ → Text → Dict Text → Option HealthcheckConfig → Services → Services × Option Error
add_bucket now name labels cfg s =
    let (bs, refused) = bucket_store_add name new_bucket s.buckets in
    let (reg, failed) = Registry.add now (bucket_service_entry name labels) s.reg in
    elim refused [
      | some e ↦ (s, some e)
      | none ↦ (elim failed [
        | some e ↦ (
          record s { buckets = (bucket_store_remove name bs).0 },
          some (registering_bucket name e),
        )
        | none ↦ (register_health now name cfg (record s { reg = reg; buckets = bs }), none)
      ])
    ]

unfoldable pub update_bucket :
    ℕ → Text → Dict Text → Option HealthcheckConfig → Services → Services × Option Error
update_bucket now name labels cfg s =
    let (reg, failed) = Registry.update now (bucket_service_entry name labels) s.reg in
    if has name s.buckets
    then (elim failed [
      | some e ↦ (s, some e)
      | none ↦
          (register_health now name cfg (unregister_health name (record s { reg = reg })), none)
    ])
    else (s, some (bucket_not_found name))

unfoldable pub remove_bucket : ℕ → Text → Services → Services × Option Error
remove_bucket now name s =
    let t = unregister_health name s in
    let (bs, refused) = bucket_store_remove name t.buckets in
    let (reg, failed) = Registry.remove now name t.reg in
    elim refused [ some e ↦ (t, some e) | none ↦ (record t { reg = reg; buckets = bs }, failed) ]

unfoldable pub add_proxy :
    ℕ
    → Text
    → Text
    → Auth
    → Dict Text
    → Option HealthcheckConfig
    → Services
    → Services × Option Error
add_proxy now name target auth labels cfg s =
    let (ps, refused) = proxy_store_add name (record { target = target; auth = auth }) s.proxies in
    let (reg, failed) = Registry.add now (proxy_service_entry name labels) s.reg in
    elim refused [
      | some e ↦ (s, some e)
      | none ↦ (elim failed [
        | some e ↦
            (record s { proxies = (proxy_store_remove name ps).0 }, some (registering_proxy name e))
        | none ↦ (register_health now name cfg (record s { reg = reg; proxies = ps }), none)
      ])
    ]

unfoldable pub remove_proxy : ℕ → Text → Services → Services × Option Error
remove_proxy now name s =
    let t = unregister_health name s in
    let (ps, refused) = proxy_store_remove name t.proxies in
    let (reg, failed) = Registry.remove now name t.reg in
    elim refused [ some e ↦ (t, some e) | none ↦ (record t { reg = reg; proxies = ps }, failed) ]
