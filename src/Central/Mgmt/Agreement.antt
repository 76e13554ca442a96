-- ===== src/Central/Mgmt/Agreement.antt =====
-- The manual peers of the collector are those of the configuration, and requests and reloads keep
-- them so.
use mathlib.Core.Option
use tailscale_metrics_discov.Common.{
  ◌≡◌, refl, ◌∙◌, Bool, true, List, [], ◌∷◌, ◌++◌, Option, none, some, arith, keep_if,
  if◌then◌else◌,
}
use tailscale_metrics_discov.Common.Text.{Text, ◌==◌, ==_iff}
use tailscale_metrics_discov.Common.Dict.{
  Dict, lookup, insert, Distinct, lookup-insert, lookup-delete,
}
use tailscale_metrics_discov.Config
use tailscale_metrics_discov.Config.{CentralConfig}
use tailscale_metrics_discov.Agent.Mgmt.{Writes}
use tailscale_metrics_discov.Central.Collector.{
  Collector, ManualPeer, add_manual_peer, remove_manual_peer, replace_config_peers,
  add_config_peers, drop_config_peers, update_agent_token,
}
use tailscale_metrics_discov.Central.Discovery.{NodeAttrs}
use tailscale_metrics_discov.Central.Server.{
  Server, save_central_config, filter_manual_peers, reload,
}
use tailscale_metrics_discov.Central.Mgmt.{
  Request, PeerRequest, peer_add, peer_remove, add_peer, remove_peer, serve_peer, config_peer,
  cli_peer,
}

-- The last peer of a list with an address.
unfoldable pub last_peer : Text → List Config.ManualPeer → Option Config.ManualPeer
last_peer k [] = none
last_peer k (p ∷ ps) = elim (last_peer k ps) [
  | none ↦ if p.address == k then some p else none
  | some q ↦ some q
]

-- A peer of the collector as the configuration writes it.
abbrev pub as_config : ManualPeer → Config.ManualPeer
as_config mp = record { name = mp.name; address = mp.address; port = mp.port }

abbrev pub kept_peer : Text → Collector → Option Config.ManualPeer
kept_peer k c = Option.map as_config (lookup k c.manual_peers)

-- Under each address the collector has the last peer that the configuration names.
abbrev pub Agreeing : Server → Type 0
Agreeing s = (k : Text) → kept_peer k s.col ≡ last_peer k s.cfg.manual_peers

last_peer-snoc :
    (k : Text) (p : Config.ManualPeer) (ps : List Config.ManualPeer)
    → last_peer k (ps ++ p ∷ []) ≡ (if p.address == k then some p else last_peer k ps)
unfolding last_peer
last_peer-snoc k p [] = refl
last_peer-snoc k p (q ∷ ps) = ground (arith, last_peer-snoc k p ps)

last_peer-filter :
    (k address : Text) (ps : List Config.ManualPeer)
    → last_peer k (filter_manual_peers ps address) ≡ (if address == k then none else last_peer k ps)
unfolding last_peer filter_manual_peers keep_if
last_peer-filter k address [] = ground arith
last_peer-filter k address (p ∷ ps) = ground (
  arith,
  last_peer-filter k address ps,
  ==_iff p.address address,
  ==_iff p.address k,
  ==_iff address k,
)

add_peer-Agreeing :
    (writes : Bool) (req : PeerRequest) (s : Server)
    → Agreeing s
    → Agreeing (add_peer writes req s).0
unfolding add_peer save_central_config add_manual_peer
add_peer-Agreeing writes req s a k = ground (
  arith,
  a k,
  last_peer-snoc k (config_peer req) s.cfg.manual_peers,
  lookup-insert req.address k (cli_peer req) s.col.manual_peers,
)

remove_peer-Agreeing :
    (w : Writes) (address : Text) (s : Server) → Agreeing s → Agreeing (remove_peer w address s).0
unfolding remove_peer save_central_config remove_manual_peer
remove_peer-Agreeing w address s a k = ground (
  arith,
  a k,
  last_peer-filter k address s.cfg.manual_peers,
  lookup-delete address k s.col.manual_peers,
)

-- Whatever a request asks of the manual peers, and however its writes to the file end: if the collector
-- had under each address the last peer that the configuration names, and no other, it does so after
-- the request, of the configuration after it.
pub serve_peer-Agreeing :
    (w : Writes) (req : Request) (s : Server) → Agreeing s → Agreeing (serve_peer w req s).0
unfolding serve_peer
serve_peer-Agreeing w (peer_add req) s a = add_peer-Agreeing w.first req s a
serve_peer-Agreeing w (peer_remove address) s a = remove_peer-Agreeing w address s a

-- A peer of the file, as the collector keeps it.
abbrev pub from_file : Config.ManualPeer → ManualPeer
from_file p = record { name = p.name; address = p.address; port = p.port; from_config = true }

lookup-add_config_peers :
    (k : Text) (ps : List Config.ManualPeer) (m : Dict ManualPeer)
    → lookup k (add_config_peers ps m)
      ≡ (elim (last_peer k ps) [ none ↦ lookup k m | some p ↦ some (from_file p) ])
unfolding add_config_peers last_peer
lookup-add_config_peers k [] m = refl
lookup-add_config_peers k (p ∷ ps) m = ground (
  arith,
  lookup-add_config_peers k ps (insert p.address (from_file p) m),
  lookup-insert p.address k (from_file p) m,
)

-- An entry that a request made, and not a file.
abbrev pub by_request : Option ManualPeer → Option ManualPeer
by_request none = none
by_request (some mp) = if mp.from_config then none else some mp

lookup-drop_config_peers :
    (k : Text) (m : Dict ManualPeer)
    → Distinct m
    → lookup k (drop_config_peers m) ≡ by_request (lookup k m)
unfolding drop_config_peers lookup
lookup-drop_config_peers k [] d = refl
lookup-drop_config_peers k ((j, mp) ∷ m) d =
    ground (arith, d.0, lookup-drop_config_peers k m d.1, ==_iff j k)

-- Under each address, a reload of a configuration file leaves the last peer that it names there, marked
-- as one of the file, in place of any other peer with that address; or else the entry that a request
-- made; and no other. The map has each address once.
pub reload-manual_peers :
    (attrs : Option (Option NodeAttrs)) (cfg : CentralConfig) (s : Server)
    → s.has_file ≡ true
    → Distinct s.col.manual_peers
    → (k : Text)
    → lookup k (reload attrs (some cfg) s).0.col.manual_peers
      ≡ (elim (last_peer k cfg.manual_peers) [
        | none ↦ by_request (lookup k s.col.manual_peers)
        | some p ↦ some (from_file p)
      ])
unfolding reload replace_config_peers update_agent_token
reload-manual_peers attrs cfg s file d k = simp file (
    lookup-add_config_peers k cfg.manual_peers (drop_config_peers s.col.manual_peers)
    ∙ ground (arith, lookup-drop_config_peers k s.col.manual_peers d))
