-- ===== src/Agent/Services/Reload.antt =====
-- internal/agent/server.go: the loads of `Start` and `reloadConfigServices`. Errors of a reload are
-- logged only; all its calls read one clock.
pub mod Removal
pub mod Listed
pub mod Loops
pub mod Buckets
pub mod Desired
pub mod Configured
pub mod Proxies
pub mod Closed
use tailscale_metrics_discov.Common.{
  ℕ, Bool, true, false, List, [], ◌∷◌, ◌++◌, Option, none, some, or_else, if◌then◌else◌,
}
use tailscale_metrics_discov.Common.Text.{Text}
use tailscale_metrics_discov.Common.Dict.{Dict, lookup, insert, has}
use tailscale_metrics_discov.Protocol.{ServiceType, ServiceEntry}
use tailscale_metrics_discov.Config.{StaticService, BucketService, ProxyService, AgentConfig}
use tailscale_metrics_discov.Config
use tailscale_metrics_discov.Agent.Error.{Error, loading_static}
use tailscale_metrics_discov.Agent.Registry.{list}
use tailscale_metrics_discov.Agent.Proxy.{Auth}
use tailscale_metrics_discov.Agent.Services.{
  Services, add_static, remove_static, add_bucket, update_bucket, remove_bucket, add_proxy,
  remove_proxy,
}

abbrev pub proxy_auth : Config.ProxyAuth → Auth
proxy_auth a = record {
  auth_type = a.type;
  token = a.token;
  username = a.username;
  password = a.password;
}

-- `desiredBuckets` and `bucketOrder`; a name that occurs again is ignored.
unfoldable pub desired_buckets :
    List BucketService → Dict BucketService → List Text → Dict BucketService × List Text
desired_buckets [] desired order = (desired, order)
desired_buckets (bc ∷ bcs) desired order =
    desired_buckets bcs (if has bc.name desired then desired else insert bc.name bc desired)
      (if has bc.name desired then order else order ++ bc.name ∷ [])

-- One round of the loop over the registered services.
unfoldable pub drop_service : ℕ → Dict BucketService → ServiceType → Text → Services → Services
drop_service now desired ServiceType.static name s = (remove_static now name s).0
drop_service now desired ServiceType.bucket name s =
    if has name desired then s else (remove_bucket now name s).0
drop_service now desired ServiceType.proxy name s = (remove_proxy now name s).0

unfoldable pub drop_services : ℕ → Dict BucketService → List ServiceEntry → Services → Services
drop_services now desired [] s = s
drop_services now desired (e ∷ es) s =
    drop_services now desired es (drop_service now desired e.type e.name s)

unfoldable pub reload_statics : ℕ → List StaticService → Services → Services
reload_statics now [] s = s
reload_statics now (st ∷ sts) s =
    reload_statics now sts (add_static now st.name st.targets st.labels st.healthcheck s).0

abbrev pub zero_bucket : BucketService
zero_bucket = record { name = []; labels = []; healthcheck = none }

unfoldable pub reload_bucket : ℕ → Text → BucketService → Services → Services
reload_bucket now name bc s =
    if has name s.buckets
    then (update_bucket now name bc.labels bc.healthcheck s).0
    else (add_bucket now name bc.labels bc.healthcheck s).0

unfoldable pub reload_buckets : ℕ → Dict BucketService → List Text → Services → Services
reload_buckets now desired [] s = s
reload_buckets now desired (name ∷ order) s =
    reload_buckets now desired order
      (reload_bucket now name (or_else (lookup name desired) zero_bucket) s)

unfoldable pub reload_proxies : ℕ → List ProxyService → Services → Services
reload_proxies now [] s = s
reload_proxies now (pc ∷ pcs) s =
    reload_proxies now pcs
      (add_proxy now pc.name pc.target (proxy_auth pc.auth) pc.labels pc.healthcheck s).0

unfoldable pub reload_config_services : ℕ → AgentConfig → Services → Services
reload_config_services now cfg s =
    let (desired, order) = desired_buckets cfg.buckets [] [] in
    let dropped = drop_services now desired (list s.reg) s in
    let with_statics = reload_statics now cfg.statics dropped in
    reload_proxies now cfg.proxies (reload_buckets now desired order with_statics)

-- The loads of `Start` stop at the first error.
unfoldable pub load_statics : ℕ → List StaticService → Services → Services × Option Error
load_statics now [] s = (s, none)
load_statics now (st ∷ sts) s =
    let (t, failed) = add_static now st.name st.targets st.labels st.healthcheck s in
    elim failed [ none ↦ load_statics now sts t | some e ↦ (t, some (loading_static st.name e)) ]

unfoldable pub load_buckets : ℕ → List BucketService → Services → Services × Option Error
load_buckets now [] s = (s, none)
load_buckets now (bc ∷ bcs) s =
    let (t, failed) = add_bucket now bc.name bc.labels bc.healthcheck s in
    elim failed [ none ↦ load_buckets now bcs t | some e ↦ (t, some e) ]

unfoldable pub load_proxies : ℕ → List ProxyService → Services → Services × Option Error
load_proxies now [] s = (s, none)
load_proxies now (pc ∷ pcs) s =
    let (t, failed) =
      add_proxy now pc.name pc.target (proxy_auth pc.auth) pc.labels pc.healthcheck s in
    elim failed [ none ↦ load_proxies now pcs t | some e ↦ (t, some e) ]

-- The part of `Start` that registers what the configuration names.
unfoldable pub load_services : ℕ → AgentConfig → Services → Services × Option Error
load_services now cfg s =
    let (t, no_statics) = load_statics now cfg.statics s in
    let (u, no_buckets) = load_buckets now cfg.buckets t in
    let (v, no_proxies) = load_proxies now cfg.proxies u in
    elim no_statics [
      | some e ↦ (t, some e)
      | none ↦ (elim no_buckets [ some e ↦ (u, some e) | none ↦ (v, no_proxies) ])
    ]
