-- ===== src/Central/Current.antt =====
-- The central and one agent together: what the central holds of an agent's services.
pub mod Tests
use mathlib.Core.Option
use tailscale_metrics_discov.Common.{
  ℕ, ◌≡◌, ◌⊎◌, inl, inr, refl, sym, ap, ◌∙◌, Bool, true, false, not, leb, eqb, ◌&&◌, List, [], ◌∷◌,
  ◌++◌, Option, none, some, arith, or_else, Bool-cases, if◌then◌else◌,
}
use tailscale_metrics_discov.Common.Text.{Text, text, ◌==◌, ==_iff}
use tailscale_metrics_discov.Common.Dict.{Dict, lookup, has}
use tailscale_metrics_discov.Protocol.{ServiceEntry, ServiceHealthStatus, PeerInfo, AgentHealth}
use tailscale_metrics_discov.Agent.Bucket.{Method}
use tailscale_metrics_discov.Agent.Registry.{truncate}
use tailscale_metrics_discov.Agent.Resolve.{Interfaces}
use tailscale_metrics_discov.Agent.Auth.{Policy, Caller, auth_middleware}
use tailscale_metrics_discov.Agent.Api.{
  Daemon, Response, services_body, handle_services, handle_services_health, refused,
  check_not_modified,
}
use tailscale_metrics_discov.Agent.Api.Conditional.{Running, Reach, handle_services-current}
use tailscale_metrics_discov.Central.Collector.{
  Collector, Request, Exchange, HealthBody, ServicesReply, Agent, query_agent_services,
  services_request, query_request, receive_services, services_answer, answer_of, CachedPeerServices,
  query_agent_health, health_request, receive_health, health_answer, worse_health,
}
use tailscale_metrics_discov.Central.Refresh.{
  Applied, query_peer, apply_to, finish, merged_services,
}
use tailscale_metrics_discov.Central.Refresh.Kept.{
  without_health, merged_services-without_health, finish-cache,
}

abbrev pub policy_of : Daemon → Policy
policy_of d = record {
  token = d.srv.cfg.server.token;
  allowed_tags = d.srv.allowed_tags;
  allow_anonymous = d.srv.cfg.server.allow_anonymous;
}

abbrev pub caller_of : Option (List Text) → Request → Caller
caller_of tags req = record { node_tags = tags; authorization = or_else req.authorization [] }

abbrev pub exchanged : Response (List ServiceEntry) → Exchange (List ServiceEntry)
exchanged r = Exchange.answered r.code r.last_modified r.body

abbrev pub some_values : Dict ServiceHealthStatus → Dict (Option ServiceHealthStatus)
some_values [] = []
some_values ((k, h) ∷ m) = (k, some h) ∷ some_values m

abbrev pub health_body : Dict ServiceHealthStatus → HealthBody
health_body m = record { entries = some (some_values m) }

abbrev pub exchanged_health : Response (Dict ServiceHealthStatus) → Exchange HealthBody
exchanged_health r = Exchange.answered r.code r.last_modified (Option.map health_body r.body)

-- What the cache has of a peer: its list up to health, and when that was fetched.
abbrev pub held : CachedPeerServices → List ServiceEntry × ℕ
held cached = (without_health cached.services, cached.fetched_at)

module _ (parse_time : Text → Option ℕ) (format_time : ℕ → Text) (interface_ip : Interfaces)
    (is6 : Bool) (tags : Option (List Text)) where
  -- The route of /api/v1/services.
  abbrev pub serve_services : Request → Daemon → Response (List ServiceEntry)
  serve_services req d =
      if auth_middleware (policy_of d) (caller_of tags req)
      then handle_services parse_time format_time interface_ip Method.get
          (or_else req.if_modified_since []) is6 d
      else refused 401

  -- The route of /api/v1/services/health.
  abbrev pub serve_health : Request → Daemon → Response (Dict ServiceHealthStatus)
  serve_health req d =
      if auth_middleware (policy_of d) (caller_of tags req)
      then handle_services_health parse_time format_time Method.get
          (or_else req.if_modified_since []) d
      else refused 401

  -- The agent on a network that delivers.
  abbrev pub agent_of : Daemon → Agent
  agent_of d = record {
    services = λ req. exchanged (serve_services req d);
    health = λ req. exchanged_health (serve_health req d);
  }

  -- Whether the agent lets the central in.
  abbrev pub LetsIn : Daemon → PeerInfo → Collector → Type 0
  LetsIn e peer c = auth_middleware (policy_of e) (caller_of tags (services_request peer c)) ≡ true

  -- What a conditional query brings of a list that the central knows.
  abbrev pub Told : List ServiceEntry → List ServiceEntry → ServicesReply → Type 0
  Told old new r =
      (r.health ≡ AgentHealth.ok)
      × (((r.not_modified ≡ true) × (old ≡ new)) ⊎ ((r.not_modified ≡ false) × (r.services ≡ new)))

  query_agent_services-Told :
      ((t : ℕ) → parse_time (format_time t) ≡ some (truncate t))
      → (d e : Daemon) (peer : PeerInfo) (c : Collector) → Running d
      → Reach d e
      → has peer.tailscale_ip c.service_cache ≡ true
      → lookup peer.tailscale_ip c.last_modified_svc
        ≡ some (format_time d.srv.svc.reg.svc_modified_at)
      → LetsIn e peer c
      → Told
          (services_body interface_ip is6 d)
          (services_body interface_ip is6 e)
          (query_agent_services (agent_of e) peer c).1
        × ((query_agent_services (agent_of e) peer c).0.agent_token ≡ c.agent_token)
  unfolding query_agent_services query_request receive_services services_answer answer_of
      handle_services
  query_agent_services-Told inverse d e peer c h r cached known let_in =
      let current =
        handle_services-current parse_time format_time inverse interface_ip is6 d e h r in
      elim (Bool-cases (
        check_not_modified parse_time format_time (format_time d.srv.svc.reg.svc_modified_at)
          e.srv.svc.reg.svc_modified_at)) [
            | inl old ↦ rw let_in (
                simp (cached, known, old) ((refl, inl (refl, sym (current (simp old refl)))), refl))
            | inr new ↦ rw let_in (simp (cached, known, new) ((refl, inr (refl, refl)), refl))
          ]

  query_agent_health-ok :
      (e : Daemon) (peer : PeerInfo) (c : Collector)
      → LetsIn e peer c
      → (query_agent_health (agent_of e) peer c).1.health ≡ AgentHealth.ok
  unfolding query_agent_health query_request receive_health health_answer answer_of
      handle_services_health
  query_agent_health-ok e peer c let_in =
      elim (Bool-cases (
        check_not_modified parse_time format_time
          (or_else (health_request peer c).if_modified_since [])
          e.srv.svc.reg.health_modified_at)) [
            | inl old ↦ rw let_in (simp old refl)
            | inr new ↦ rw let_in (simp new refl)
          ]

  -- The cache of the central has, up to health, the list that a running agent sent it, and the time
  -- that came with it. Whatever the agent did since: if it lets the central in, both queries of the next
  -- refresh go well, the peer counts as healthy, and once its result is applied to a cache that still has
  -- that snapshot, and expired snapshots are evicted, the cache has, up to health, the agent's current
  -- list, as of the time of this refresh, be its answer a 200 or a 304. Asked of HTTP times is that a time
  -- that is written and read again is the same to the second, of the agent's interfaces that they keep
  -- their addresses, and of the network that it delivers.
  pub query-current :
      ((t : ℕ) → parse_time (format_time t) ≡ some (truncate t))
      → (now idx : ℕ) (d e : Daemon) (peer : PeerInfo) (c : Collector) (a : Applied)
        (cached : CachedPeerServices)
      → Running d
      → Reach d e
      → lookup peer.tailscale_ip c.service_cache ≡ some cached
      → lookup peer.tailscale_ip a.cache ≡ some cached
      → without_health cached.services ≡ without_health (services_body interface_ip is6 d)
      → lookup peer.tailscale_ip c.last_modified_svc
        ≡ some (format_time d.srv.svc.reg.svc_modified_at)
      → LetsIn e peer c
      → let (c', r) = query_peer (agent_of e) idx peer c in
        let cache = (finish now (apply_to now r peer a) c').service_cache in
        (r.health ≡ AgentHealth.ok)
        × (Option.map held (lookup peer.tailscale_ip cache)
            ≡ some (without_health (services_body interface_ip is6 e), now))
  unfolding query_peer worse_health query_request
  query-current inverse now idx d e peer c a cached h reach e' a' same known let_in =
      let (told, token) =
        query_agent_services-Told inverse d e peer c h reach (rw e' refl) known let_in in
      let c1 = (query_agent_services (agent_of e) peer c).0 in
      let healthy = query_agent_health-ok e peer c1 (rw token let_in) in
      let (c', r) = query_peer (agent_of e) idx peer c in
      let ok_ : r.health ≡ AgentHealth.ok = rw (told.0, healthy) refl in
      let list : without_health (merged_services r (lookup peer.tailscale_ip a.cache))
          ≡ without_health (services_body interface_ip is6 e) =
        merged_services-without_health r _ ∙ (elim told.1 [
          | inl (old, body) ↦ rw (old, a') (same ∙ ap without_health body)
          | inr (new, body) ↦ rw (new, body) refl
        ]) in
      (ok_, rw (finish-cache now r peer a c' (rw ok_ refl)) (ap (λ l. some (l, now)) list))
