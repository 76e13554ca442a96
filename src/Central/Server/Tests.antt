-- ===== src/Central/Server/Tests.antt =====
-- A concrete central, its manual peers and its cache: the theorems at work.
use mathlib.Core.List.Perm
use tailscale_metrics_discov.Common.{
  ◌≡◌, ◌⊎◌, refl, true, false, List, [], ◌∷◌, ◌++◌, none, some, pos,
}
use tailscale_metrics_discov.Common.Text.{Text, text, ◌==◌}
use tailscale_metrics_discov.Common.Dict.{lookup, Distinct}
use tailscale_metrics_discov.Config.{CentralConfig, default_self_metrics_config}
use tailscale_metrics_discov.Agent.Bucket.{Method}
use tailscale_metrics_discov.Agent.Mgmt.Tests.{writes}
use tailscale_metrics_discov.Central.Collector.{
  Collector, ManualPeer, CachedPeerServices, replace_config_peers, add_config_peers,
  drop_config_peers, new_collector,
}
use tailscale_metrics_discov.Central.Refresh.Targets.{ok_targets}
use tailscale_metrics_discov.Central.Tests.{world, node}
use tailscale_metrics_discov.Central.PeerCache.{PeerCacheEntry, save_peer_cache, load_peer_cache}
use tailscale_metrics_discov.Central.PeerCache.RoundTrip.{unexpired, load-save}
use tailscale_metrics_discov.Central.Server.{Server, new_server, reload, serve_sd}
use tailscale_metrics_discov.Central.Server.Sd.{
  permitted, Answers, refreshed_server, serve_sd-refreshed,
}
use tailscale_metrics_discov.Central.Mgmt.{PeerRequest, peer_add, peer_remove, serve_peer}
use tailscale_metrics_discov.Central.Mgmt.Agreement.{
  Agreeing, last_peer, by_request, from_file, serve_peer-Agreeing, reload-manual_peers,
}
use tailscale_metrics_discov.Central.Mgmt.Atomic.{persisted, Untouched, serve_peer-Atomic}

abbrev central_config : CentralConfig
central_config = record {
  server = record { listen = text ":9000"; token = text "secret" };
  tailscale_socket = [];
  discovery = record {
    tags = text "tag:agent" ∷ [];
    agent_port = pos 9001;
    refresh_interval = pos 60;
    agent_token = [];
    node_attrs = false;
  };
  socket = [];
  manual_peers = [];
  self_metrics = default_self_metrics_config;
}

abbrev central : Server
central = new_server central_config true central_config

abbrev bearer : Text
bearer = text "Bearer secret"

serve_sd-refreshed_example :
    Answers
      (permitted bearer central)
      (ok_targets (refreshed_server world central).col.peers ++ central.self_targets)
      (serve_sd bearer Method.get (refreshed_server world central))
serve_sd-refreshed_example =
    serve_sd-refreshed world central (node ∷ []) bearer refl (λ rs. Perm.refl rs)

abbrev added : PeerRequest
added = record { name = text "db"; address = text "100.64.0.9"; port = pos 9001 }

no_peers : Agreeing central
unfolding new_server new_collector last_peer lookup replace_config_peers add_config_peers
    drop_config_peers
no_peers k = refl

serve_peer-Agreeing_example : Agreeing (serve_peer writes (peer_add added) central).0
serve_peer-Agreeing_example = serve_peer-Agreeing writes (peer_add added) central no_peers

in_step : persisted central ≡ central.cfg
unfolding new_server
in_step = refl

serve_peer-Atomic_example :
    (persisted (serve_peer writes (peer_remove (text "100.64.0.9")) central).0
      ≡ (serve_peer writes (peer_remove (text "100.64.0.9")) central).0.cfg)
    × (((serve_peer writes (peer_remove (text "100.64.0.9")) central).1 ≡ 200)
        ⊎ Untouched central (serve_peer writes (peer_remove (text "100.64.0.9")) central).0)
serve_peer-Atomic_example =
    serve_peer-Atomic writes (peer_remove (text "100.64.0.9")) central refl in_step

abbrev by_hand : ManualPeer
by_hand = record {
  name = text "db";
  address = text "100.64.0.9";
  port = pos 9001;
  from_config = false;
}

abbrev with_peer : Server
with_peer = record central {
  col = record (new_collector []) { manual_peers = (text "100.64.0.9", by_hand) ∷ [] };
}

has_file : with_peer.has_file ≡ true
unfolding new_server
has_file = refl

with_peer-Distinct : Distinct with_peer.col.manual_peers
unfolding lookup
with_peer-Distinct = (refl, tt)

reload-manual_peers_example :
    lookup (text "100.64.0.9") (reload none (some central_config) with_peer).0.col.manual_peers
    ≡ (elim (last_peer (text "100.64.0.9") central_config.manual_peers) [
      | none ↦ by_request (lookup (text "100.64.0.9") with_peer.col.manual_peers)
      | some p ↦ some (from_file p)
    ])
reload-manual_peers_example =
    reload-manual_peers none central_config with_peer has_file with_peer-Distinct
      (text "100.64.0.9")

abbrev snapshot : CachedPeerServices
snapshot = record { services = []; fetched_at = 1000 }

abbrev pub caching : Collector
caching = record (new_collector []) {
  service_cache = (text "100.64.0.7", snapshot) ∷ [];
  last_modified_svc = (text "100.64.0.7", 0 ∷ []) ∷ [];
}

path_named : (text "peers.json" == []) ≡ false
unfolding text ◌==◌
path_named = refl

caching-Distinct : Distinct caching.service_cache
unfolding lookup
caching-Distinct = (refl, tt)

load-save_example :
    lookup
      (text "100.64.0.7")
      (load_peer_cache {Document = List PeerCacheEntry}
        (λ es. some es)
        (text "peers.json")
        2000
        (save_peer_cache (λ es. es) (text "peers.json") true caching none)
        (new_collector [])).service_cache
    ≡ unexpired 2000 none (lookup (text "100.64.0.7") caching.service_cache)
load-save_example =
    load-save {Document = List PeerCacheEntry} (λ es. es) (λ es. some es) (λ es. refl)
      (text "peers.json") [] path_named caching caching-Distinct 2000 none (text "100.64.0.7")
