-- ===== src/Protocol.antt =====
-- internal/protocol/types.go: the data that the agent and the central exchange.
-- `time.Time` is a number of nanoseconds, a nil pointer is `none`.
use tailscale_metrics_discov.Common.{ℕ, List, Option}
use tailscale_metrics_discov.Common.Text.{Text}
use tailscale_metrics_discov.Common.Dict.{Dict}

abbrev pub default_agent_port : ℕ
default_agent_port = 9001

pub record SdTarget : Type 0 where
  pub targets : List Text
  pub labels : Dict Text

pub data ServiceType : Type 0 where
  static bucket proxy : ServiceType

pub data ServiceHealth : Type 0 where
  unknown healthy unhealthy : ServiceHealth

pub record ServiceHealthStatus : Type 0 where
  pub status : ServiceHealth
  pub check_url : Text
  pub last_check : Option ℕ
  pub status_code : ℕ
  pub message : Text

pub record ServiceEntry : Type 0 where
  pub name : Text
  pub type : ServiceType
  pub target : SdTarget
  pub health : Option ServiceHealthStatus

pub data PeerSource : Type 0 where
  auto manual : PeerSource

pub data AgentHealth : Type 0 where
  offline timeout unauthorized ok unknown : AgentHealth

pub record PeerInfo : Type 0 where
  pub hostname : Text
  pub dns_name : Text
  pub tailscale_ip : Text
  pub tags : List Text
  pub agent_url : Text
  pub source : PeerSource
  pub health : AgentHealth
  pub services : List ServiceEntry
  pub services_updated_at : Option ℕ
