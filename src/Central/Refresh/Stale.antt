-- ===== src/Central/Refresh/Stale.antt =====
-- A services response that arrives with a failed health query: its `Last-Modified` is kept, its
-- services are not.
use tailscale_metrics_discov.Common.{ℕ, ◌≡◌, refl, ◌∙◌, false, List, [], some, arith}
use tailscale_metrics_discov.Common.Text.{Text, ◌==◌, ==_self}
use tailscale_metrics_discov.Common.Dict.{lookup, Distinct, lookup-insert}
use tailscale_metrics_discov.Protocol.{ServiceEntry, PeerInfo}
use tailscale_metrics_discov.Central.Collector.{
  Collector, CachedPeerServices, Agent, Exchange, services_request, query_agent_services,
  query_agent_health, services_answer, answer_of, receive_services, receive_health, worse_health,
  query_request, is_expired, fresh_cache, evict_expired_service_cache,
}
use tailscale_metrics_discov.Central.Refresh.{Applied, query_peer, apply_to, finish}
use tailscale_metrics_discov.Central.Refresh.Kept.{lookup-fresh_cache_kept, evict-last_modified_svc}

-- An agent whose services query brings a new list, while its health query brings nothing.
abbrev pub half_answering : Text → List ServiceEntry → Agent
half_answering lm es = record {
  services = λ _. Exchange.answered 200 lm (some es);
  health = λ _. Exchange.unreachable;
}

-- A peer with a cached snapshot of at most 72 hours answers the services query with a new list and a
-- `Last-Modified`, and its health query fails. At the end of the refresh, after its result is applied
-- and expired snapshots are evicted, the cache still has the old snapshot, while the next services
-- request asks for changes since the new list only. The cache has each address once, and is as the
-- queries left it when the result is applied.
pub half_answer-Stale :
    (now idx : ℕ) (p : PeerInfo) (c : Collector) (a : Applied) (lm : Text) (es : List ServiceEntry)
    (cached : CachedPeerServices)
    → (lm == []) ≡ false
    → a.cache ≡ c.service_cache
    → Distinct c.service_cache
    → lookup p.tailscale_ip c.service_cache ≡ some cached
    → is_expired now cached ≡ false
    → let (c', r) = query_peer (half_answering lm es) idx p c in
      let ended = finish now (apply_to now r p a) c' in
      (lookup p.tailscale_ip ended.service_cache ≡ some cached)
      × ((services_request p ended).if_modified_since ≡ some lm)
unfolding finish evict_expired_service_cache apply_to query_peer query_agent_services
    query_agent_health services_answer receive_services receive_health answer_of worse_health
    query_request
half_answer-Stale now idx p c a lm es cached lm_set same distinct e young =
    let (c', r) = query_peer (half_answering lm es) idx p c in
    let kept : lookup p.tailscale_ip (fresh_cache now c.service_cache) ≡ some cached =
      lookup-fresh_cache_kept now p.tailscale_ip c.service_cache cached e young in
    let modified = evict-last_modified_svc now p.tailscale_ip c' cached distinct e young in
    (
      rw (same, kept) refl,
      rw (same, kept)
          (modified
            ∙ ground (
              arith,
              lm_set,
              lookup-insert p.tailscale_ip p.tailscale_ip lm c.last_modified_svc,
              ==_self p.tailscale_ip,
            )),
    )
