-- ===== src/Central/Mgmt.antt =====
-- internal/central/mgmt.go: the handlers of the central's management API. A request is its method and
-- its decoded body, `none` for one that does not decode.
pub mod Agreement
pub mod Atomic
use tailscale_metrics_discov.Common.{
  ℕ, zero, suc, Bool, true, false, not, ◌&&◌, ◌||◌, List, [], ◌∷◌, ◌++◌, Option, none, some, ltb, ℤ,
  pos, negsuc, is_empty, if◌then◌else◌,
}
use tailscale_metrics_discov.Common.Text.{Text, ◌==◌}
use tailscale_metrics_discov.Common.Dict.{Dict}
use tailscale_metrics_discov.Protocol.{
  ServiceEntry, ServiceType, ServiceHealthStatus, PeerInfo, AgentHealth,
}
use tailscale_metrics_discov.Config
use tailscale_metrics_discov.Config.{CentralConfig}
use tailscale_metrics_discov.Agent.Bucket.{Method}
use tailscale_metrics_discov.Agent.Mgmt.{Writes}
use tailscale_metrics_discov.Central.Collector.{
  Collector, ManualPeer, add_manual_peer, remove_manual_peer,
}
use tailscale_metrics_discov.Central.Server.{Server, save_central_config, filter_manual_peers}

pub record PeerRequest : Type 0 where
  pub name : Text
  pub address : Text
  pub port : ℤ

abbrev pub port_refused : ℤ → Bool
port_refused (pos n) = ltb 65535 n
port_refused (negsuc n) = true

-- The peer as the configuration keeps it, and as the collector does.
abbrev pub config_peer : PeerRequest → Config.ManualPeer
config_peer req = record { name = req.name; address = req.address; port = req.port }

abbrev pub cli_peer : PeerRequest → ManualPeer
cli_peer req = record {
  name = req.name;
  address = req.address;
  port = req.port;
  from_config = false;
}

unfoldable pub add_peer : Bool → PeerRequest → Server → Server × ℕ
add_peer writes req s =
    let next = record s.cfg { manual_peers = s.cfg.manual_peers ++ config_peer req ∷ [] } in
    let (t, saved) = save_central_config writes next s in
    if req.address == []
    then (s, 400)
    else if port_refused req.port
    then (s, 400)
    else if saved
    then (record t { col = add_manual_peer (cli_peer req) t.col; cfg = next }, 200)
    else (t, 500)

unfoldable pub remove_peer : Writes → Text → Server → Server × ℕ
remove_peer w address s =
    let next = record s.cfg { manual_peers = filter_manual_peers s.cfg.manual_peers address } in
    let (t, saved) = save_central_config w.first next s in
    let (col, removed) = remove_manual_peer address t.col in
    let (u, restored) = save_central_config w.rollback s.cfg t in
    if saved
    then (if removed
        then (record t { col = col; cfg = next }, 200)
        else (u, if restored then 404 else 500))
    else (t, 500)

-- The requests that change the manual peers.
pub data Request : Type 0 where
  peer_add : PeerRequest → Request
  peer_remove : Text → Request

unfoldable pub serve_peer : Writes → Request → Server → Server × ℕ
serve_peer w (peer_add req) s = add_peer w.first req s
serve_peer w (peer_remove address) s = remove_peer w address s

-- A request as it arrives.
unfoldable pub handle_peer : Writes → Method → Option Request → Server → Server × ℕ
handle_peer w Method.post none s = (s, 400)
handle_peer w Method.post (some req) s = serve_peer w req s
handle_peer w _ body s = (s, 405)

-- GET /mgmt/peer/list, in the order of the map.
unfoldable pub peer_items : Dict ManualPeer → List PeerRequest
peer_items [] = []
peer_items ((k, mp) ∷ m) =
    record { name = mp.name; address = mp.address; port = mp.port } ∷ peer_items m

pub record ServiceHealthItem : Type 0 where
  pub name : Text
  pub type : ServiceType
  pub health : ServiceHealthStatus

pub record PeerHealth : Type 0 where
  pub hostname : Text
  pub tailscale_ip : Text
  pub agent_health : AgentHealth
  pub services : List ServiceHealthItem
  pub services_updated_at : Option ℕ

unfoldable pub checked_services : List ServiceEntry → List ServiceHealthItem
checked_services [] = []
checked_services (e ∷ es) = elim e.health [
  | none ↦ checked_services es
  | some h ↦ record { name = e.name; type = e.type; health = h } ∷ checked_services es
]

-- GET /mgmt/health
unfoldable pub peers_health : List PeerInfo → List PeerHealth
peers_health [] = []
peers_health (p ∷ ps) =
    let rest = peers_health ps in
    let svcs = checked_services p.services in
    if is_empty svcs
    then rest
    else (record {
      hostname = p.hostname;
      tailscale_ip = p.tailscale_ip;
      agent_health = p.health;
      services = svcs;
      services_updated_at = p.services_updated_at;
    })
      ∷ rest
