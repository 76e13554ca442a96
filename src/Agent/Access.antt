-- ===== src/Agent/Access.antt =====
-- internal/agent/server.go: who called, as the status of the agent shows it. A call is let through by
-- the middleware first. `net.SplitHostPort` is a parameter; what `WhoIs` says of the caller, the tags
-- and the name of its node, is an argument.
use tailscale_metrics_discov.Common.{ℕ, Bool, List, [], ◌∷◌, Option, none, some, if◌then◌else◌}
use tailscale_metrics_discov.Common.Text.{Text, ◌==◌}
use tailscale_metrics_discov.Common.Dict.{Dict, insert}
use tailscale_metrics_discov.Agent.Auth.{Policy, Caller, auth_middleware}

pub record ClientAccess : Type 0 where
  pub node_name : Text
  pub ip : Text
  pub last_seen : ℕ

module _ (split_host_port : Text → Option (Text × Text)) where
  -- The host of an address, or all of it.
  unfoldable pub host_of : Text → Text
  host_of remote = elim (split_host_port remote) [
    | none ↦ remote
    | some (ip, port) ↦ if ip == [] then remote else ip
  ]

  unfoldable pub record_client_access :
      ℕ → Text → Option Text → Dict ClientAccess → Dict ClientAccess
  record_client_access now remote name clients =
      let ip = host_of remote in
      insert ip
        (record { node_name = elim name [ none ↦ [] | some n ↦ n ]; ip = ip; last_seen = now })
        clients

  -- What a guarded handler leaves of the clients, and whether it runs.
  unfoldable pub admitted :
      ℕ → Policy → Caller → Text → Option Text → Dict ClientAccess → Dict ClientAccess × Bool
  admitted now p r remote name clients =
      let passed = auth_middleware p r in
      (if passed then record_client_access now remote name clients else clients, passed)

-- In the order of the map.
unfoldable pub client_access_list : Dict ClientAccess → List ClientAccess
client_access_list [] = []
client_access_list ((k, ca) ∷ m) = ca ∷ client_access_list m
