-- ===== src/Agent/Mgmt/Clone.antt =====
-- `cloneAgentConfig` and its helpers in internal/agent/mgmt.go, field by field.
use tailscale_metrics_discov.Common.{◌≡◌, refl, ap, List, [], ◌∷◌, ◌++◌, Option, none, some}
use tailscale_metrics_discov.Common.Text.{Text}
use tailscale_metrics_discov.Common.Dict.{Dict}
use tailscale_metrics_discov.Config.{
  SelfMetricsConfig, HealthcheckConfig, StaticService, BucketService, ProxyService, AgentConfig,
}

-- A new map with every key and value of the old one.
unfoldable pub copy_string_map : Dict Text → Dict Text
copy_string_map [] = []
copy_string_map ((k, v) ∷ src) = (k, v) ∷ copy_string_map src

unfoldable pub clone_healthcheck : Option HealthcheckConfig → Option HealthcheckConfig
clone_healthcheck none = none
clone_healthcheck (some cfg) =
    some (record { url = cfg.url; interval = cfg.interval; timeout = cfg.timeout })

unfoldable pub clone_self_metrics_config : SelfMetricsConfig → SelfMetricsConfig
clone_self_metrics_config cfg = record {
  enabled = cfg.enabled;
  path = cfg.path;
  listen = cfg.listen;
  register_self = cfg.register_self;
  labels = copy_string_map cfg.labels;
}

unfoldable pub clone_statics : List StaticService → List StaticService
clone_statics [] = []
clone_statics (st ∷ sts) =
    record {
      name = st.name;
      targets = [] ++ st.targets;
      labels = copy_string_map st.labels;
      healthcheck = clone_healthcheck st.healthcheck;
    }
    ∷ clone_statics sts

unfoldable pub clone_buckets : List BucketService → List BucketService
clone_buckets [] = []
clone_buckets (bc ∷ bcs) =
    record {
      name = bc.name;
      labels = copy_string_map bc.labels;
      healthcheck = clone_healthcheck bc.healthcheck;
    }
    ∷ clone_buckets bcs

unfoldable pub clone_proxies : List ProxyService → List ProxyService
clone_proxies [] = []
clone_proxies (pc ∷ pcs) =
    record {
      name = pc.name;
      target = pc.target;
      auth = pc.auth;
      labels = copy_string_map pc.labels;
      healthcheck = clone_healthcheck pc.healthcheck;
    }
    ∷ clone_proxies pcs

unfoldable pub clone_agent_config : AgentConfig → AgentConfig
clone_agent_config cfg = record {
  server = cfg.server;
  socket = cfg.socket;
  self_metrics = clone_self_metrics_config cfg.self_metrics;
  statics = clone_statics cfg.statics;
  buckets = clone_buckets cfg.buckets;
  proxies = clone_proxies cfg.proxies;
}

copy_string_map_same : (m : Dict Text) → copy_string_map m ≡ m
unfolding copy_string_map
copy_string_map_same [] = refl
copy_string_map_same ((k, v) ∷ m) = ap (◌∷◌ (k, v)) (copy_string_map_same m)

clone_healthcheck_same : (h : Option HealthcheckConfig) → clone_healthcheck h ≡ h
unfolding clone_healthcheck
clone_healthcheck_same none = refl
clone_healthcheck_same (some cfg) = refl

clone_statics_same : (sts : List StaticService) → clone_statics sts ≡ sts
unfolding clone_statics
clone_statics_same [] = refl
clone_statics_same (st ∷ sts) =
    rw
      (
        copy_string_map_same st.labels,
        clone_healthcheck_same st.healthcheck,
        clone_statics_same sts,
      )
      refl

clone_buckets_same : (bcs : List BucketService) → clone_buckets bcs ≡ bcs
unfolding clone_buckets
clone_buckets_same [] = refl
clone_buckets_same (bc ∷ bcs) =
    rw
      (
        copy_string_map_same bc.labels,
        clone_healthcheck_same bc.healthcheck,
        clone_buckets_same bcs,
      )
      refl

clone_proxies_same : (pcs : List ProxyService) → clone_proxies pcs ≡ pcs
unfolding clone_proxies
clone_proxies_same [] = refl
clone_proxies_same (pc ∷ pcs) =
    rw
      (
        copy_string_map_same pc.labels,
        clone_healthcheck_same pc.healthcheck,
        clone_proxies_same pcs,
      )
      refl

-- A clone of a configuration has all of its settings.
pub clone_agent_config_same : (cfg : AgentConfig) → clone_agent_config cfg ≡ cfg
unfolding clone_agent_config clone_self_metrics_config
clone_agent_config_same cfg =
    rw
      (
        copy_string_map_same cfg.self_metrics.labels,
        clone_statics_same cfg.statics,
        clone_buckets_same cfg.buckets,
        clone_proxies_same cfg.proxies,
      )
      refl
