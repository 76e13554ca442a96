-- ===== src/Agent/Mgmt/Tests.antt =====
-- Management requests to a concrete agent: the theorems at work.
use tailscale_metrics_discov.Common.{◌≡◌, ◌⊎◌, refl, true, [], ◌∷◌, none, some, is_some}
use tailscale_metrics_discov.Common.Text.{Text, text, ◌==◌}
use tailscale_metrics_discov.Common.Dict.{lookup, insert}
use tailscale_metrics_discov.Common.Sorting.{find_by}
use tailscale_metrics_discov.Config
use tailscale_metrics_discov.Config.{
  StaticService, BucketService, ProxyService, AgentConfig, default_agent_config,
}
use tailscale_metrics_discov.Agent.Bucket.{new_bucket}
use tailscale_metrics_discov.Agent.Registry.{new_registry, add}
use tailscale_metrics_discov.Agent.HealthChecker.{register, start}
use tailscale_metrics_discov.Agent.Services.{
  add_static, add_bucket, add_proxy, bucket_store_add, proxy_store_add, static_entry,
  bucket_service_entry, proxy_service_entry,
}
use tailscale_metrics_discov.Agent.Services.Consistent.{IsConsistent}
use tailscale_metrics_discov.Agent.Services.Reload.{
  load_services, load_statics, load_buckets, load_proxies, reload_config_services,
}
use tailscale_metrics_discov.Agent.Services.Reload.Listed.{listed}
use tailscale_metrics_discov.Agent.Services.Reload.Buckets.{bucket_name, reload-keeps-bucket}
use tailscale_metrics_discov.Agent.Services.Reload.Configured.{configured}
use tailscale_metrics_discov.Agent.Services.Reload.Proxies.{proxy_of, reload_complete}
use tailscale_metrics_discov.Agent.Services.Reload.Loops.{proxy_name}
use mathlib.Core.Option
use tailscale_metrics_discov.Agent.Server.{Server, new_server, start_services}
use tailscale_metrics_discov.Agent.Mgmt.{Writes, StaticRequest, service_add, bucket_remove, serve}
use tailscale_metrics_discov.Agent.Mgmt.Atomic.{persisted, Untouched, serve-Atomic}
use tailscale_metrics_discov.Agent.Mgmt.Agreement.{Agreeing}
use tailscale_metrics_discov.Agent.Mgmt.Agreement.Serve.{serve-Agreeing}
use tailscale_metrics_discov.Agent.Mgmt.Agreement.Start.{start_services-Agreeing}

abbrev node : StaticService
node = record {
  name = text "node";
  targets = text "{ts.ip}:9100" ∷ [];
  labels = [];
  healthcheck = none;
}

abbrev jobs : BucketService
jobs = record { name = text "jobs"; labels = []; healthcheck = none }

abbrev no_auth : Config.ProxyAuth
no_auth = record { type = []; token = []; username = []; password = [] }

abbrev app : ProxyService
app = record {
  name = text "app";
  target = text "http://localhost:8080/metrics";
  auth = no_auth;
  labels = [];
  healthcheck = none;
}

abbrev pub config : AgentConfig
config = record (default_agent_config []) {
  statics = node ∷ [];
  buckets = jobs ∷ [];
  proxies = app ∷ [];
}

abbrev started : Server
started = (start_services 7 (new_server 5 config true config)).0

started_well : (start_services 7 (new_server 5 config true config)).1 ≡ true
unfolding start_services new_server load_services load_statics load_buckets load_proxies add_static
    add_bucket add_proxy bucket_store_add proxy_store_add static_entry bucket_service_entry
    proxy_service_entry add lookup insert register new_registry start text ◌==◌
started_well = refl

start_services-Agreeing_example : Agreeing started
start_services-Agreeing_example = start_services-Agreeing 5 7 config true config started_well

agreeing : Agreeing started
agreeing = start_services-Agreeing 5 7 config true config started_well

abbrev pub writes : Writes
writes = record { first = true; rollback = true }

abbrev pub second_node : StaticRequest
second_node = record {
  name = text "node2";
  targets = text "10.0.0.2:9100" ∷ [];
  labels = [];
  healthcheck_url = [];
}

serve-Agreeing_example : Agreeing (serve 8 writes (service_add second_node) started).0
serve-Agreeing_example = serve-Agreeing 8 writes (service_add second_node) started agreeing tt

in_step : persisted started ≡ started.cfg
unfolding start_services new_server
in_step = refl

serve-Atomic_example :
    (persisted (serve 8 writes (bucket_remove (text "node")) started).0
      ≡ (serve 8 writes (bucket_remove (text "node")) started).0.cfg)
    × (((serve 8 writes (bucket_remove (text "node")) started).1 ≡ 200)
        ⊎ Untouched started (serve 8 writes (bucket_remove (text "node")) started).0)
serve-Atomic_example =
    serve-Atomic 8 writes (bucket_remove (text "node")) started refl refl in_step
      agreeing.consistent

reload_complete_example :
    IsConsistent (reload_config_services 9 config started.svc)
    × ((k : Text) → listed (reload_config_services 9 config started.svc) k ≡ configured config k)
    × ((k : Text)
        → lookup k (reload_config_services 9 config started.svc).proxies
          ≡ Option.map proxy_of (find_by proxy_name k config.proxies))
unfolding start_services new_server
reload_complete_example =
    reload_complete 9 config started.svc agreeing.consistent agreeing.valid agreeing.distinct

jobs_wanted : is_some (find_by bucket_name (text "jobs") config.buckets) ≡ true
unfolding find_by text ◌==◌
jobs_wanted = refl

jobs_stored : lookup (text "jobs") started.svc.buckets ≡ some new_bucket
unfolding start_services new_server load_services load_statics load_buckets load_proxies add_static
    add_bucket add_proxy bucket_store_add proxy_store_add static_entry bucket_service_entry
    proxy_service_entry add lookup insert register new_registry start text ◌==◌
jobs_stored = refl

reload-keeps-bucket_example :
    lookup (text "jobs") (reload_config_services 9 config started.svc).buckets ≡ some new_bucket
reload-keeps-bucket_example =
    reload-keeps-bucket 9 config (text "jobs") started.svc new_bucket jobs_wanted jobs_stored
