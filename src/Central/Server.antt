-- ===== src/Central/Server.antt =====
-- internal/central/server.go: the state of the central's server, how it reloads, and the endpoint that
-- Prometheus asks for targets. `net.SplitHostPort` is a parameter, what the file system and the local
-- Tailscale daemon answer are arguments. Calls run one after another.
pub mod Sd
pub mod Tests
use tailscale_metrics_discov.Common.{
  ℕ, Bool, true, false, not, ◌&&◌, ◌||◌, List, [], ◌∷◌, ◌++◌, Option, none, some, keep_if, is_some,
  if◌then◌else◌,
}
use tailscale_metrics_discov.Common.Text.{Text, text, ◌==◌}
use tailscale_metrics_discov.Common.Dict.{copy}
use tailscale_metrics_discov.Protocol.{SdTarget}
use tailscale_metrics_discov.Config
use tailscale_metrics_discov.Config.{CentralConfig, SelfMetricsConfig}
use tailscale_metrics_discov.Agent.Bucket.{Method}
use tailscale_metrics_discov.Central.Collector.{
  Collector, new_collector, replace_config_peers, update_agent_token,
}
use tailscale_metrics_discov.Central.Discovery.{
  Discoverer, NodeAttrs, update_config, refresh_self_attrs, clear_self_attrs,
}

pub record Server : Type 0 where
  pub cfg : CentralConfig
  -- whether there is a file, and what it holds
  pub has_file : Bool
  pub file : CentralConfig
  pub col : Collector
  pub disc : Discoverer
  pub self_targets : List SdTarget

-- `NewServer`, with the file that the caller sets.
unfoldable pub new_server : CentralConfig → Bool → CentralConfig → Server
new_server cfg has_file file = record {
  cfg = cfg;
  has_file = has_file;
  file = file;
  col = replace_config_peers cfg.manual_peers (new_collector cfg.discovery.agent_token);
  disc = record { tags = cfg.discovery.tags; port = cfg.discovery.agent_port; self_attrs = none };
  self_targets = [];
}

-- `saveCentralConfig`; a write that fails leaves the file. The Boolean is whether there is no error.
unfoldable pub save_central_config : Bool → CentralConfig → Server → Server × Bool
save_central_config writes cfg s =
    if s.has_file
    then (if writes then (record s { file = cfg }, true) else (s, false))
    else (s, true)

unfoldable pub filter_manual_peers : List Config.ManualPeer → Text → List Config.ManualPeer
filter_manual_peers peers address = keep_if (λ p. not (p.address == address)) peers

unfoldable pub reload_discoverer :
    CentralConfig → Option (Option NodeAttrs) → Discoverer → Discoverer
reload_discoverer cfg attrs d =
    let e = update_config cfg.discovery.tags cfg.discovery.agent_port d in
    if cfg.discovery.node_attrs then refresh_self_attrs attrs e else clear_self_attrs e

-- `Reload`: `loaded` is what `LoadCentralConfig` reads of the file, `attrs` what
-- `RefreshSelfAttrs` brings. The Boolean is whether there is no error.
unfoldable pub reload : Option (Option NodeAttrs) → Option CentralConfig → Server → Server × Bool
reload attrs none s = (s, not s.has_file)
reload attrs (some cfg) s =
    if s.has_file
    then (
      record s {
        cfg = cfg;
        col =
            replace_config_peers cfg.manual_peers
              (update_agent_token cfg.discovery.agent_token s.col);
        disc = reload_discoverer cfg attrs s.disc;
      },
      true,
    )
    else (s, true)

-- `authMiddleware`: the header, empty if there is none, and the answer of the handler it guards.
unfoldable pub auth_middleware : {A : Type 0} → Text → ℕ × Option A → Server → ℕ × Option A
auth_middleware header answer s =
    let token = s.cfg.server.token in
    if not (token == []) && not (header == (text "Bearer " ++ token)) then (401, none) else answer

unfoldable pub handle_sd : Method → Server → ℕ × Option (List SdTarget)
handle_sd Method.get s = (200, some (s.col.targets ++ s.self_targets))
handle_sd _ s = (405, none)

-- GET /api/v1/sd
unfoldable pub serve_sd : Text → Method → Server → ℕ × Option (List SdTarget)
serve_sd header method s = auth_middleware header (handle_sd method s) s

module _ (split_host_port : Text → Option (Text × Text)) where
  unfoldable pub resolve_listen_to_host : Text → Text
  resolve_listen_to_host addr = elim (split_host_port addr) [
    | none ↦ addr
    | some (host, port) ↦
        let unspecified = host == [] || host == text "0.0.0.0" || host == text "::" in
        (if unspecified then text "localhost" else host) ++ (b':' ∷ port)
  ]

  unfoldable pub self_target : SelfMetricsConfig → Text → SdTarget
  self_target sm server_listen =
      let path = if sm.path == [] then text "/metrics" else sm.path in
      let listen = if sm.listen == [] then server_listen else sm.listen in
      record {
        targets = resolve_listen_to_host listen ∷ [];
        labels =
            copy
              ((text "__tsd_service_name", text "tsd-central")
                ∷ (text "__tsd_service_type", text "static")
                ∷ (text "__metrics_path__", path)
                ∷ [])
              sm.labels;
      }

  -- The part of `setupMetrics` that injects the central's own target.
  unfoldable pub setup_metrics : Server → Server
  setup_metrics s =
      let sm = s.cfg.self_metrics in
      if sm.enabled && sm.register_self
      then record s { self_targets = self_target sm s.cfg.server.listen ∷ [] }
      else s
