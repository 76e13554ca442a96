-- ===== src/Agent/Server.antt =====
-- The state of the agent's server in internal/agent/server.go: the configuration in memory and in its
-- file, the services, the HTTP listener and the tags of node attributes; how it listens and reloads.
-- The outcomes of the file system, the network and the local Tailscale daemon are arguments. Calls run
-- one after another.
use tailscale_metrics_discov.Common.{
  ℕ, Bool, true, false, not, List, [], ◌∷◌, Option, none, some, is_some, ltb, if◌then◌else◌,
}
use tailscale_metrics_discov.Common.Decimal.{show}
use tailscale_metrics_discov.Common.Text.{Text, ◌==◌}
use tailscale_metrics_discov.Config.{AgentConfig}
use tailscale_metrics_discov.Agent.Registry.{touch_services, new_registry}
use tailscale_metrics_discov.Agent.HealthChecker.{new_health_checker, start}
use tailscale_metrics_discov.Agent.Services.{Services}
use tailscale_metrics_discov.Agent.Services.Reload.{reload_config_services, load_services}
use tailscale_metrics_discov.Central.Discovery.{NodeAttrs}

pub record Server : Type 0 where
  pub cfg : AgentConfig
  -- whether there is a file, and what it holds
  pub has_file : Bool
  pub file : AgentConfig
  pub svc : Services
  -- the address of `httpSrv`
  pub listening : Option Text
  pub allowed_tags : List Text

abbrev pub new_services : ℕ → Services
new_services now = record {
  reg = new_registry now;
  hc = new_health_checker;
  buckets = [];
  proxies = [];
}

-- `NewServer`, with the file that the caller sets.
unfoldable pub new_server : ℕ → AgentConfig → Bool → AgentConfig → Server
new_server now cfg has_file file = record {
  cfg = cfg;
  has_file = has_file;
  file = file;
  svc = new_services now;
  listening = none;
  allowed_tags = [];
}

-- `saveConfig`; a write that fails leaves the file as it was. The Boolean is whether there is no error.
unfoldable pub save_config : Bool → AgentConfig → Server → Server × Bool
save_config writes cfg s =
    if s.has_file
    then (if writes then (record s { file = cfg }, true) else (s, false))
    else (s, true)

abbrev pub with_listen : Text → AgentConfig → AgentConfig
with_listen addr cfg = record cfg { server = record cfg.server { listen = addr } }

-- What `readSelfNodeAttrs` brings: `none` is its error, `some none` no valid attributes.
abbrev pub AttrsOutcome : Type 0
AttrsOutcome = Option (Option NodeAttrs)

unfoldable pub attrs_listen : NodeAttrs → AgentConfig → AgentConfig
attrs_listen a cfg = if ltb 0 a.agent_port then with_listen (b':' ∷ show a.agent_port) cfg else cfg

unfoldable pub read_attrs : AttrsOutcome → AgentConfig → Server → AgentConfig × List Text
read_attrs none cfg s = (with_listen s.cfg.server.listen cfg, s.allowed_tags)
read_attrs (some none) cfg s = (cfg, [])
read_attrs (some (some a)) cfg s = (attrs_listen a cfg, a.central_tags)

-- `configWithNodeAttrs`
unfoldable pub config_with_node_attrs :
    AttrsOutcome → AgentConfig → Server → AgentConfig × List Text
config_with_node_attrs attrs cfg s =
    if cfg.server.node_attrs then read_attrs attrs cfg s else (cfg, [])

-- `rebindHTTPServer`: `binds` is the outcome of `net.Listen`, the Boolean whether there is no error.
unfoldable pub rebind_http_server : ℕ → Bool → Text → Server → Server × Bool
rebind_http_server now binds addr s = elim s.listening [
  | none ↦ (s, true)
  | some old ↦
      if old == addr
      then (record s { cfg = with_listen addr s.cfg }, true)
      else if binds
      then (
        record s {
          cfg = with_listen addr s.cfg;
          listening = some addr;
          svc = record s.svc { reg = touch_services now s.svc.reg };
        },
        true,
      )
      else (s, false)
]

-- `LoadNodeAttrs`; an error of the rebinding is logged only.
unfoldable pub load_node_attrs : ℕ → Bool → AttrsOutcome → Server → Server
load_node_attrs now binds attrs s =
    let (next, allowed) = config_with_node_attrs attrs s.cfg s in
    let t = record s { allowed_tags = allowed } in
    let addr = next.server.listen in
    if s.cfg.server.listen == addr
    then t
    else if is_some s.listening
    then (if addr == [] then t else (rebind_http_server now binds addr t).0)
    else record t { cfg = with_listen addr t.cfg }

unfoldable pub clear_node_attrs : Server → Server
clear_node_attrs s = record s { allowed_tags = [] }

-- The end of `Reload`, once nothing can fail.
unfoldable pub adopt_config : ℕ → AgentConfig → List Text → Server → Server
adopt_config now cfg allowed s = record s {
  cfg = cfg;
  allowed_tags = allowed;
  svc = reload_config_services now cfg s.svc;
}

-- `Reload`: `loaded` is what `LoadAgentConfig` reads of the file.
unfoldable pub reload : ℕ → Bool → AttrsOutcome → Option AgentConfig → Server → Server × Bool
reload now binds attrs none s = (s, not s.has_file)
reload now binds attrs (some cfg) s =
    let (next, allowed) = config_with_node_attrs attrs cfg s in
    let (t, bound) = rebind_http_server now binds next.server.listen s in
    if s.has_file
    then (if bound then (adopt_config now next allowed t, true) else (t, false))
    else (s, true)

-- The part of `Start` before it listens; the Boolean is whether there is no error.
unfoldable pub start_services : ℕ → Server → Server × Bool
start_services now s =
    let svc = record s.svc { hc = start s.svc.hc } in
    let (loaded, failed) = load_services now s.cfg svc in
    (record s { svc = loaded }, not (is_some failed))
