-- ===== src/Agent/Api.antt =====
-- internal/agent/server.go and daemon.go: what the agent answers to the central, and the addresses that
-- it answers with. `http.ParseTime`, `http.TimeFormat` and the addresses of the interfaces are
-- parameters; whether a caller's address is IPv6 is an argument.
pub mod Watched
pub mod Conditional
use mathlib.Core.Option
use tailscale_metrics_discov.Common.{
  ℕ, Bool, true, false, not, ◌&&◌, ◌||◌, List, [], ◌∷◌, ◌++◌, Option, none, some, eqb, is_empty,
  or_else, if◌then◌else◌,
}
use tailscale_metrics_discov.Common.Text.{Text, text, ◌==◌, cut_at, cut_prefix}
use tailscale_metrics_discov.Common.Dict.{Dict, copy}
use tailscale_metrics_discov.Protocol.{SdTarget, ServiceType, ServiceEntry, ServiceHealthStatus}
use tailscale_metrics_discov.Config.{SelfMetricsConfig}
use tailscale_metrics_discov.Agent.Registry.{
  list_without_health, list_health, touch_services, second,
}
use tailscale_metrics_discov.Agent.Registry.Modified.{not_modified_since}
use tailscale_metrics_discov.Agent.Resolve.{Interfaces, ResolveContext, context_of, resolve_entries}
use tailscale_metrics_discov.Agent.Bucket.{Method}
use tailscale_metrics_discov.Agent.Server.{Server}

-- The server and what it knows of its own addresses.
pub record Daemon : Type 0 where
  pub srv : Server
  pub self_addr : Text
  pub ts_ipv4 : Text
  pub ts_ipv6 : Text
  pub extra_targets : List SdTarget

-- The text before and behind the last colon.
unfoldable pub split_host_port : Text → Option (Text × Text)
split_host_port [] = none
split_host_port (c ∷ s) = elim (split_host_port s) [
  | none ↦ if eqb c b':' then some ([], s) else none
  | some (host, port) ↦ some (c ∷ host, port)
]

abbrev pub port_of : Text → Text
port_of addr = elim (split_host_port addr) [ none ↦ [] | some (host, port) ↦ port ]

pub record NodeAddress : Type 0 where
  pub is4 : Bool
  pub address : Text

-- The first address of a kind.
unfoldable pub first_address : Bool → List NodeAddress → Text
first_address is4 [] = []
first_address is4 (a ∷ addresses) =
    if (if is4 then a.is4 else not a.is4) then a.address else first_address is4 addresses

abbrev pub preferred : Text → Text → Text
preferred ipv4 ipv6 = if ipv4 == [] then ipv6 else ipv4

abbrev pub with_addresses : Text → Text → Text → Daemon → Daemon
with_addresses addr ipv4 ipv6 d = record d { self_addr = addr; ts_ipv4 = ipv4; ts_ipv6 = ipv6 }

abbrev pub touched_daemon : ℕ → Daemon → Daemon
touched_daemon now d = record d {
  srv = record d.srv { svc = record d.srv.svc { reg = touch_services now d.srv.svc.reg } };
}

abbrev pub same_addresses : Text → Text → Text → Daemon → Bool
same_addresses addr ipv4 ipv6 d = d.self_addr == addr && d.ts_ipv4 == ipv4 && d.ts_ipv6 == ipv6

-- The end of `detectAndSetSelfIP`, with the addresses that it found.
unfoldable pub set_self_ip : ℕ → Text → Text → Text → Daemon → Daemon
set_self_ip now ipv4 ipv6 port d =
    let addr = preferred ipv4 ipv6 ++ b':' ∷ port in
    if same_addresses addr ipv4 ipv6 d
    then with_addresses addr ipv4 ipv6 d
    else touched_daemon now (with_addresses addr ipv4 ipv6 d)

-- `detectAndSetSelfIP`: the status is `none` for an error, else the addresses of this node.
unfoldable pub detect_and_set_self_ip : ℕ → Option (List NodeAddress) → Daemon → Daemon
detect_and_set_self_ip now none d = d
detect_and_set_self_ip now (some addresses) d =
    let ipv4 = first_address true addresses in
    let ipv6 = first_address false addresses in
    let port = port_of d.srv.cfg.server.listen in
    if port == []
    then d
    else if preferred ipv4 ipv6 == []
    then d
    else set_self_ip now ipv4 ipv6 port d

-- A status code, the `Last-Modified` header, and a body for 200.
pub record Response (A : Type 0) : Type 0 where
  pub code : ℕ
  pub last_modified : Text
  pub body : Option A

abbrev pub refused : {A : Type 0} → ℕ → Response A
refused code = record { code = code; last_modified = []; body = none }

unfoldable pub extra_entries : List SdTarget → List ServiceEntry
extra_entries [] = []
extra_entries (t ∷ ts) =
    record { name = text "tsd-agent-metrics"; type = ServiceType.static; target = t; health = none }
    ∷ extra_entries ts

module _ (interface_ip : Interfaces) where
  -- The list that a 200 carries.
  unfoldable pub services_body : Bool → Daemon → List ServiceEntry
  services_body is6 d =
      resolve_entries interface_ip
        (context_of is6 d.ts_ipv4 d.ts_ipv6 (port_of d.srv.cfg.server.listen))
        (list_without_health d.srv.svc.reg ++ extra_entries d.extra_targets)

module _ (parse_time : Text → Option ℕ) (format_time : ℕ → Text) where
  -- The header is empty if there is none.
  unfoldable pub check_not_modified : Text → ℕ → Bool
  check_not_modified ims mod_time =
      if ims == []
      then false
      else (elim (parse_time ims) [ none ↦ false | some t ↦ not_modified_since mod_time t ])

  abbrev pub conditional : {A : Type 0} → Text → ℕ → A → Response A
  conditional ims mod_time body =
      if check_not_modified ims mod_time
      then refused 304
      else record { code = 200; last_modified = format_time mod_time; body = some body }

  -- GET /api/v1/services
  unfoldable pub handle_services :
      Interfaces → Method → Text → Bool → Daemon → Response (List ServiceEntry)
  handle_services interface_ip Method.get ims is6 d =
      conditional ims d.srv.svc.reg.svc_modified_at (services_body interface_ip is6 d)
  handle_services interface_ip _ ims is6 d = refused 405

  -- GET /api/v1/services/health
  unfoldable pub handle_services_health :
      Method → Text → Daemon → Response (Dict ServiceHealthStatus)
  handle_services_health Method.get ims d =
      conditional ims d.srv.svc.reg.health_modified_at (list_health d.srv.svc.reg)
  handle_services_health _ ims d = refused 405

-- `setupMetrics`, without the listener: the address for this listen address. The parameter is
-- `net.SplitHostPort`; on its error the host and the port are empty.
unfoldable pub metrics_target : (Text → Option (Text × Text)) → Text → Text
metrics_target split listen = if listen == [] then text "{self}" else (elim (split listen) [
  | none ↦ text ":"
  | some (host, port) ↦
      let unspecified = host == [] || host == text "0.0.0.0" || host == text "::" in
      (if unspecified then text "{ts.ip}:" else host ++ text ":") ++ port
])

unfoldable pub setup_metrics : (Text → Option (Text × Text)) → Daemon → Daemon
setup_metrics split d =
    let sm = d.srv.cfg.self_metrics in
    let path = if sm.path == [] then text "/metrics" else sm.path in
    let target : SdTarget = record {
      targets = metrics_target split sm.listen ∷ [];
      labels =
          copy
            ((text "__tsd_service_name", text "tsd-agent")
              ∷ (text "__tsd_service_type", text "static")
              ∷ (text "__metrics_path__", path)
              ∷ [])
            sm.labels;
    } in
    if sm.enabled && sm.register_self
    then record d { extra_targets = d.extra_targets ++ target ∷ [] }
    else d
