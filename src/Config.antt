-- ===== src/Config.antt =====
-- internal/config: the configuration structs of the agent and the central. A TOML file is the value
-- that it holds; a `time.Duration` is an integer of nanoseconds.
pub mod Files
use tailscale_metrics_discov.Common.{Bool, true, false, ℤ, List, [], Option}
use tailscale_metrics_discov.Common.Text.{Text, text}
use tailscale_metrics_discov.Common.Dict.{Dict}

pub record SelfMetricsConfig : Type 0 where
  pub enabled : Bool
  pub path : Text
  pub listen : Text
  pub register_self : Bool
  pub labels : Dict Text

unfoldable pub default_self_metrics_config : SelfMetricsConfig
default_self_metrics_config = record {
  enabled = true;
  path = text "/metrics";
  listen = [];
  register_self = false;
  labels = [];
}

pub record AgentServer : Type 0 where
  pub listen : Text
  pub token : Text
  pub node_attrs : Bool
  pub allow_anonymous : Bool

pub record HealthcheckConfig : Type 0 where
  pub url : Text
  pub interval : ℤ
  pub timeout : ℤ

pub record StaticService : Type 0 where
  pub name : Text
  pub targets : List Text
  pub labels : Dict Text
  pub healthcheck : Option HealthcheckConfig

pub record BucketService : Type 0 where
  pub name : Text
  pub labels : Dict Text
  pub healthcheck : Option HealthcheckConfig

pub record ProxyAuth : Type 0 where
  pub type : Text
  pub token : Text
  pub username : Text
  pub password : Text

pub record ProxyService : Type 0 where
  pub name : Text
  pub target : Text
  pub auth : ProxyAuth
  pub labels : Dict Text
  pub healthcheck : Option HealthcheckConfig

pub record AgentConfig : Type 0 where
  pub server : AgentServer
  pub socket : Text
  pub self_metrics : SelfMetricsConfig
  pub statics : List StaticService
  pub buckets : List BucketService
  pub proxies : List ProxyService

unfoldable pub default_agent_config : Text → AgentConfig
default_agent_config socket = record {
  server = record { listen = text ":9001"; token = []; node_attrs = true; allow_anonymous = false };
  socket = socket;
  self_metrics = default_self_metrics_config;
  statics = [];
  buckets = [];
  proxies = [];
}

pub record CentralServer : Type 0 where
  pub listen : Text
  pub token : Text

pub record DiscoveryConfig : Type 0 where
  pub tags : List Text
  pub agent_port : ℤ
  pub refresh_interval : ℤ
  pub agent_token : Text
  pub node_attrs : Bool

pub record ManualPeer : Type 0 where
  pub name : Text
  pub address : Text
  pub port : ℤ

pub record CentralConfig : Type 0 where
  pub server : CentralServer
  pub tailscale_socket : Text
  pub discovery : DiscoveryConfig
  pub socket : Text
  pub manual_peers : List ManualPeer
  pub self_metrics : SelfMetricsConfig
