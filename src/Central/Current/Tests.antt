-- ===== src/Central/Current/Tests.antt =====
-- A concrete agent and a central that asks it twice: the theorem at work.
use mathlib.Core.Option
use tailscale_metrics_discov.Common.{◌≡◌, refl, ℕ, true, false, [], ◌∷◌, Option, none, some}
use tailscale_metrics_discov.Common.Text.{Text, text, ◌==◌}
use tailscale_metrics_discov.Common.Dict.{lookup, insert}
use tailscale_metrics_discov.Protocol.{PeerInfo, PeerSource, AgentHealth}
use tailscale_metrics_discov.Config.{default_agent_config}
use tailscale_metrics_discov.Agent.Auth.{auth_middleware, token_accepted}
use tailscale_metrics_discov.Agent.Registry.{new_registry, truncate, add}
use tailscale_metrics_discov.Agent.HealthChecker.{register}
use tailscale_metrics_discov.Agent.Resolve.{Interfaces}
use tailscale_metrics_discov.Agent.Services.{add_static, static_entry}
use tailscale_metrics_discov.Agent.Server.{new_server, save_config}
use tailscale_metrics_discov.Agent.Mgmt.{service_add, serve, add_service, commit, settle}
use tailscale_metrics_discov.Agent.Mgmt.Tests.{config, writes, second_node}
use tailscale_metrics_discov.Agent.Api.{Daemon, services_body}
use tailscale_metrics_discov.Agent.Api.Conditional.{
  Running, Reach, here, onward, managed, with_server,
}
use tailscale_metrics_discov.Central.Collector.{
  Collector, Agent, CachedPeerServices, new_collector, query_request, services_request,
}
use tailscale_metrics_discov.Central.Refresh.{Applied, query_peer, apply_to, finish}
use tailscale_metrics_discov.Central.Refresh.Kept.{without_health}
use tailscale_metrics_discov.Central.Current.{policy_of, caller_of, held, agent_of, query-current}

-- A time is written as its whole seconds.
abbrev written_time : ℕ → Text
written_time t = truncate t ∷ []

abbrev read_time : Text → Option ℕ
read_time [] = none
read_time (t ∷ rest) = some t

abbrev no_interfaces : Interfaces
no_interfaces name is6 = none

abbrev daemon : Daemon
daemon = record {
  srv = record (new_server 5 config true config) { listening = some (text ":9001") };
  self_addr = text "100.64.0.7:9001";
  ts_ipv4 = text "100.64.0.7";
  ts_ipv6 = [];
  extra_targets = [];
}

abbrev later : Daemon
later = with_server (serve 8 writes (service_add second_node) daemon.srv).0 daemon

daemon-Running : Running daemon
unfolding new_server new_registry default_agent_config
daemon-Running = ((refl, refl), refl)

one_request : Reach daemon later
one_request =
    onward daemon later later (managed 8 writes (service_add second_node) daemon) (here later)

abbrev peer : PeerInfo
peer = record {
  hostname = text "web";
  dns_name = text "web.example.ts.net";
  tailscale_ip = text "100.64.0.7";
  tags = text "tag:agent" ∷ [];
  agent_url = text "http://100.64.0.7:9001";
  source = PeerSource.auto;
  health = AgentHealth.unknown;
  services = [];
  services_updated_at = none;
}

-- What the agent sent, and nothing is known of its health yet.
abbrev snapshot : CachedPeerServices
snapshot = record { services = services_body no_interfaces false daemon; fetched_at = 6 }

abbrev asking : Collector
asking = record (new_collector []) {
  service_cache = (text "100.64.0.7", snapshot) ∷ [];
  last_modified_svc = (text "100.64.0.7", written_time daemon.srv.svc.reg.svc_modified_at) ∷ [];
}

abbrev so_far : Applied
so_far = record { cache = asking.service_cache; peers = peer ∷ []; targets = [] }

cached : lookup peer.tailscale_ip asking.service_cache ≡ some snapshot
unfolding text lookup ◌==◌
cached = refl

known :
    lookup peer.tailscale_ip asking.last_modified_svc
    ≡ some (written_time daemon.srv.svc.reg.svc_modified_at)
unfolding text lookup ◌==◌
known = refl

let_in : auth_middleware (policy_of later) (caller_of none (services_request peer asking)) ≡ true
unfolding serve add_service commit settle save_config new_server add_static static_entry add
    register new_registry lookup insert text ◌==◌ auth_middleware token_accepted query_request
    default_agent_config
let_in = refl

abbrev answering : Agent
answering = agent_of read_time written_time no_interfaces false none later

query-current_example :
    ((query_peer answering 0 peer asking).1.health ≡ AgentHealth.ok)
    × (Option.map held (
          lookup peer.tailscale_ip
            (finish 9
              (apply_to 9 (query_peer answering 0 peer asking).1 peer so_far)
              (query_peer answering 0 peer asking).0).service_cache)
        ≡ some (without_health (services_body no_interfaces false later), 9))
query-current_example =
    query-current read_time written_time no_interfaces false none (λ t. refl) 9 0 daemon later peer
      asking so_far snapshot daemon-Running one_request cached cached refl known let_in
