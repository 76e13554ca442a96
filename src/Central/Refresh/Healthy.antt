-- ===== src/Central/Refresh/Healthy.antt =====
-- When a peer counts as healthy: what `queryAgentServices`, `queryAgentHealth` and `worseHealth` make
-- of the answers of its agent.
use tailscale_metrics_discov.Common.{
  ℕ, ◌≡◌, refl, Bool, false, ◌&&◌, ◌||◌, List, none, some, is_some, eqb, arith,
}
use tailscale_metrics_discov.Protocol.{ServiceEntry, PeerInfo, AgentHealth}
use tailscale_metrics_discov.Central.Collector.{
  Collector, Agent, Exchange, HealthBody, services_request, health_request, query_agent_services,
  query_agent_health, receive_services, receive_health, services_answer, health_answer, answer_of,
  worse_health, query_request, rank,
}
use tailscale_metrics_discov.Central.Refresh.{query_peer, is_ok}

-- Services unchanged, or a list that decodes.
abbrev pub services_usable : Exchange (List ServiceEntry) → Bool
services_usable Exchange.unreachable = false
services_usable (Exchange.answered code lm body) = eqb code 304 || (eqb code 200 && is_some body)

-- Health unchanged, a map that decodes, or an agent that has no such endpoint.
abbrev pub health_usable : Exchange HealthBody → Bool
health_usable Exchange.unreachable = false
health_usable (Exchange.answered code lm body) =
    eqb code 304 || (eqb code 404 || (eqb code 200 && is_some body))

is_ok-receive_services :
    (x : Exchange (List ServiceEntry)) (p : PeerInfo) (c : Collector)
    → is_ok (receive_services x p c).1.health ≡ services_usable x
unfolding receive_services services_answer answer_of
is_ok-receive_services Exchange.unreachable p c = refl
is_ok-receive_services (Exchange.answered code lm none) p c = ground arith
is_ok-receive_services (Exchange.answered code lm (some es)) p c = ground arith

is_ok-receive_health :
    (x : Exchange HealthBody) (p : PeerInfo) (c : Collector)
    → is_ok (receive_health x p c).1.health ≡ health_usable x
unfolding receive_health health_answer answer_of
is_ok-receive_health Exchange.unreachable p c = refl
is_ok-receive_health (Exchange.answered code lm none) p c = ground arith
is_ok-receive_health (Exchange.answered code lm (some m)) p c = ground arith

is_ok-worse_health : (h k : AgentHealth) → is_ok (worse_health h k) ≡ (is_ok h && is_ok k)
unfolding worse_health rank
is_ok-worse_health h k = ground arith

same_health_request :
    (x : Exchange (List ServiceEntry)) (p : PeerInfo) (c : Collector)
    → health_request p (receive_services x p c).0 ≡ health_request p c
unfolding receive_services services_answer answer_of query_request
same_health_request Exchange.unreachable p c = refl
same_health_request (Exchange.answered code lm body) p c = ground arith

-- A peer is healthy exactly when its agent answers both queries usably: the services with 304 or a
-- list that decodes, the health with 304, 404 or a map that decodes.
pub is_ok-query_peer :
    (a : Agent) (idx : ℕ) (p : PeerInfo) (c : Collector)
    → is_ok (query_peer a idx p c).1.health ≡ (
        services_usable (a.services (services_request p c))
        && health_usable (a.health (health_request p c)))
unfolding query_peer query_agent_services query_agent_health
is_ok-query_peer a idx p c =
    let x = a.services (services_request p c) in
    rw
      (
        is_ok-worse_health (receive_services x p c).1.health _,
        is_ok-receive_services x p c,
        is_ok-receive_health _ p (receive_services x p c).0,
        same_health_request x p c,
      )
      refl
