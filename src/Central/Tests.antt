-- ===== src/Central/Tests.antt =====
-- Discovery, merging and refreshes on a concrete tailnet: the theorems at work.
use mathlib.Core.Option
use mathlib.Core.List.{Perm}
use mathlib.Core.List.Perm
use tailscale_metrics_discov.Common.{
  ℕ, ◌+◌, ◌≡◌, ◌⊎◌, ◌≤◌, refl, Bool, true, false, ◌&&◌, List, [], ◌∷◌, none, some, pos, is_empty,
}
use tailscale_metrics_discov.Common.Text.{Text, text, ◌==◌, cut_prefix}
use tailscale_metrics_discov.Common.Dict.{Dict, lookup, AllValues, Distinct}
use tailscale_metrics_discov.Protocol.{ServiceEntry, ServiceType, PeerInfo, PeerSource, AgentHealth}
use tailscale_metrics_discov.Central.Discovery.{
  Discoverer, PeerStatus, NodeAttrs, parse_cap_map, read_caps, read_cap, read_tag, read_port,
  atoi_positive, digits_value,
}
use tailscale_metrics_discov.Central.Discovery.Attrs.{IsSane, parse_cap_map-IsSane}
use tailscale_metrics_discov.Central.Collector.{
  Collector, ManualPeer, CachedPeerServices, Agent, Exchange, new_collector, services_request,
  health_request, evict_expired_service_cache, service_history_ttl,
}
use tailscale_metrics_discov.Central.Merge.{merge_peers}
use tailscale_metrics_discov.Central.Merge.Laws.{Extends, merge_peers-Extends}
use tailscale_metrics_discov.Central.Refresh.{
  World, Applied, is_ok, query_peer, refresh, apply_to, finish,
}
use tailscale_metrics_discov.Central.Refresh.Targets.{ok_targets, refresh-targets}
use tailscale_metrics_discov.Central.Refresh.Healthy.{
  services_usable, health_usable, is_ok-query_peer,
}
use tailscale_metrics_discov.Central.Refresh.Cache.{IsFresh, refresh-IsFresh, evict-forgets}
use tailscale_metrics_discov.Central.Refresh.Stale.{half_answering, half_answer-Stale}

abbrev pub node : PeerStatus
node = record {
  tags = text "tag:agent" ∷ [];
  ips = record { is4 = true; address = text "100.64.0.7" } ∷ [];
  dns_name = text "web.example.ts.net.";
  host_name = text "web";
  online = true;
}

abbrev pub discoverer : Discoverer
discoverer = record { tags = text "tag:agent" ∷ []; port = pos 9001; self_attrs = none }

abbrev web : ServiceEntry
web = record {
  name = text "web";
  type = ServiceType.static;
  target = record { targets = text "100.64.0.7:9100" ∷ []; labels = [] };
  health = none;
}

abbrev agent : Agent
agent = record {
  services = λ r. Exchange.answered 200 (text "now") (some (web ∷ []));
  health = λ r. Exchange.answered 404 [] none;
}

abbrev no_ip : Text → Bool
no_ip s = false

abbrev pub world : World
world = record {
  status = some (node ∷ []);
  agents = λ p. agent;
  now = 1000;
  arrival = λ rs. rs;
  is_ip = no_ip;
}

abbrev fresh : Collector
fresh = new_collector []

refresh-targets_example :
    Perm
      (refresh world discoverer fresh).targets
      (ok_targets (refresh world discoverer fresh).peers)
refresh-targets_example =
    refresh-targets world discoverer fresh (node ∷ []) refl (λ rs. Perm.refl rs)

refresh-IsFresh_example : AllValues (IsFresh 1000) (refresh world discoverer fresh).service_cache
refresh-IsFresh_example = refresh-IsFresh world discoverer fresh (node ∷ []) refl

-- The port of the attributes holds without a tag beside it.
abbrev with_attrs : Discoverer
with_attrs = record discoverer {
  self_attrs =
      some (record { agent_tags = []; central_tags = text "tag:central" ∷ []; agent_port = 9002 });
}

abbrev peer : PeerInfo
peer = record {
  hostname = text "web";
  dns_name = text "web.example.ts.net";
  tailscale_ip = text "100.64.0.7";
  tags = [];
  agent_url = text "http://100.64.0.7:9001";
  source = PeerSource.auto;
  health = AgentHealth.unknown;
  services = [];
  services_updated_at = none;
}

is_ok-query_peer_example : is_ok (query_peer agent 0 peer fresh).1.health ≡ (
    services_usable (agent.services (services_request peer fresh))
    && health_usable (agent.health (health_request peer fresh)))
is_ok-query_peer_example = is_ok-query_peer agent 0 peer fresh

abbrev by_hand : Dict ManualPeer
by_hand =
    (
      text "10.0.0.9",
      record { name = []; address = text "10.0.0.9"; port = pos 0; from_config = false },
    )
    ∷ []

merge_peers-Extends_example : Extends (peer ∷ []) (merge_peers no_ip (pos 9001) by_hand (peer ∷ []))
merge_peers-Extends_example = merge_peers-Extends no_ip (pos 9001) by_hand (peer ∷ [])

abbrev capabilities : List Text
capabilities =
    text "custom:tsd-agent-port=9100" ∷ text "custom:tsd-agent-tag=tag:a" ∷ text "funnel" ∷ []

abbrev attributes : NodeAttrs
attributes = record { agent_tags = text "tag:a" ∷ []; central_tags = []; agent_port = 9100 }

capabilities_run : parse_cap_map (some capabilities) ≡ some attributes
unfolding parse_cap_map read_caps read_cap read_tag read_port atoi_positive digits_value cut_prefix
    text ◌==◌ Option.bind
capabilities_run = refl

parse_cap_map-IsSane_example :
    IsSane attributes
    × ((1 ≤ 9100)
        × ((is_empty attributes.agent_tags ≡ false) ⊎ (is_empty attributes.central_tags ≡ false)))
parse_cap_map-IsSane_example = parse_cap_map-IsSane (some capabilities) attributes capabilities_run

abbrev old : CachedPeerServices
old = record { services = web ∷ []; fetched_at = 5 }

abbrev caching : Collector
caching = record fresh { service_cache = (text "100.64.0.7", old) ∷ [] }

old_found : lookup (text "100.64.0.7") caching.service_cache ≡ some old
unfolding lookup ◌==◌ text
old_found = refl

abbrev much_later : ℕ
much_later = 6 + service_history_ttl

evict-forgets_example :
    (lookup (text "100.64.0.7") (evict_expired_service_cache much_later caching).last_modified_svc
      ≡ none)
    × (lookup
          (text "100.64.0.7")
          (evict_expired_service_cache much_later caching).last_modified_health
        ≡ none)
evict-forgets_example = evict-forgets much_later (text "100.64.0.7") caching old old_found refl

abbrev applied : Applied
applied = record { cache = caching.service_cache; peers = peer ∷ []; targets = [] }

set_text : (text "Tue" == []) ≡ false
unfolding ◌==◌ text
set_text = refl

cache-Distinct : Distinct caching.service_cache
unfolding lookup
cache-Distinct = (refl, tt)

-- The end of a refresh in which only the services query goes well.
abbrev half_refreshed : Collector
half_refreshed =
    finish 9
      (apply_to 9 (query_peer (half_answering (text "Tue") []) 0 peer caching).1 peer applied)
      (query_peer (half_answering (text "Tue") []) 0 peer caching).0

half_answer-Stale_example :
    (lookup peer.tailscale_ip half_refreshed.service_cache ≡ some old)
    × ((services_request peer half_refreshed).if_modified_since ≡ some (text "Tue"))
half_answer-Stale_example =
    half_answer-Stale 9 0 peer caching applied (text "Tue") [] old set_text refl cache-Distinct
      old_found refl
