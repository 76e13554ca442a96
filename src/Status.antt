-- ===== src/Status.antt =====
-- internal/tsutil/status.go: the state of the local Tailscale daemon, and /healthz of agent and central.
use tailscale_metrics_discov.Common.{
  ℕ, Bool, false, not, List, [], Option, none, some, if◌then◌else◌,
}
use tailscale_metrics_discov.Common.Text.{Text, text, ◌==◌}

pub record TailscaleStatus : Type 0 where
  pub connected : Bool
  pub backend_state : Text
  pub account : Text
  pub hostname : Text
  pub tailscale_ips : List Text
  pub tags : List Text
  pub error : Text

-- This node in what the local client answers; the account is that of its user, if it is known.
pub record SelfNode : Type 0 where
  pub host_name : Text
  pub ips : List Text
  pub tags : List Text
  pub login_name : Option Text

-- The local client's error, or its backend state and this node.
pub data Answer : Type 0 where
  failed : Text → Answer
  answered : Text → Option SelfNode → Answer

abbrev pub bare_status : Bool → Text → Text → TailscaleStatus
bare_status connected state error = record {
  connected = connected;
  backend_state = state;
  account = [];
  hostname = [];
  tailscale_ips = [];
  tags = [];
  error = error;
}

unfoldable pub query_status : Answer → TailscaleStatus
query_status (failed error) = bare_status false (text "unreachable") error
query_status (answered state none) = bare_status (state == text "Running") state []
query_status (answered state (some self)) =
    record (bare_status (state == text "Running") state []) {
      account = elim self.login_name [ none ↦ [] | some name ↦ name ];
      hostname = self.host_name;
      tailscale_ips = self.ips;
      tags = self.tags;
    }

pub record Health : Type 0 where
  pub ok : Bool
  pub tailscale_connected : Bool
  pub tailscale_network : Bool
  pub backend_state : Text

-- GET /healthz of both daemons: the status code and the body.
unfoldable pub handle_healthz : TailscaleStatus → ℕ × Health
handle_healthz ts = (
  if ts.connected then 200 else 503,
  record {
    ok = ts.connected;
    tailscale_connected = not (ts.backend_state == text "unreachable");
    tailscale_network = ts.connected;
    backend_state = ts.backend_state;
  },
)
