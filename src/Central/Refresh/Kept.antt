-- ===== src/Central/Refresh/Kept.antt =====
-- `refresh` and `evictExpiredServiceCache`: what stays of a snapshot that is young enough, and what a
-- merge of health leaves of a list of services.
use tailscale_metrics_discov.Common.{
  ℕ, ◌≡◌, refl, ap, ◌∙◌, true, false, List, [], ◌∷◌, Option, none, some, arith, Bool-cases,
  Option-cases, inl, inr, some_eq, if◌then◌else◌,
}
use tailscale_metrics_discov.Common.Text.{Text, ◌==◌, ==_iff, ==_self}
use tailscale_metrics_discov.Common.Dict.{
  Dict, lookup, delete, Distinct, lookup-delete, lookup-insert,
}
use tailscale_metrics_discov.Protocol.{ServiceEntry, ServiceHealthStatus, PeerInfo}
use tailscale_metrics_discov.Central.Discovery.{in_set}
use tailscale_metrics_discov.Central.Collector.{
  Collector, CachedPeerServices, is_expired, fresh_cache, expired_ips, delete_all,
  evict_expired_service_cache,
}
use tailscale_metrics_discov.Central.Refresh.{
  PeerResult, Applied, is_ok, overlay_health, inherit_health, inherit_cached_health,
  cached_services, health_by_name, merged_services, apply_to, finish,
}

-- A list of services up to their health.
unfoldable pub without_health : List ServiceEntry → List ServiceEntry
without_health [] = []
without_health (e ∷ es) = record e { health = none } ∷ without_health es

overlay_health-without_health :
    (m : Dict (Option ServiceHealthStatus)) (es : List ServiceEntry)
    → without_health (overlay_health m es) ≡ without_health es
unfolding without_health overlay_health
overlay_health-without_health m [] = refl
overlay_health-without_health m (e ∷ es) = elim (Option-cases (lookup e.name m)) [
  | inl n ↦ rw (n, overlay_health-without_health m es) refl
  | inr (h, n) ↦ rw (n, overlay_health-without_health m es) refl
]

inherit_health-without_health :
    (m : Dict ServiceHealthStatus) (es : List ServiceEntry)
    → without_health (inherit_health m es) ≡ without_health es
unfolding without_health inherit_health
inherit_health-without_health m [] = refl
inherit_health-without_health m (e ∷ es) = elim (Option-cases e.health) [
  | inl n ↦ simp (n, inherit_health-without_health m es) refl
  | inr (h, n) ↦ simp (n, inherit_health-without_health m es) refl
]

inherit_cached_health-without_health :
    (cached : Option CachedPeerServices) (es : List ServiceEntry)
    → without_health (inherit_cached_health cached es) ≡ without_health es
unfolding inherit_cached_health
inherit_cached_health-without_health none es = refl
inherit_cached_health-without_health (some cached) es =
    inherit_health-without_health (health_by_name cached.services []) es

-- Up to health, the merged list is the list of the reply, or the cached one after a 304.
pub merged_services-without_health :
    (r : PeerResult) (cached : Option CachedPeerServices)
    → without_health (merged_services r cached)
      ≡ without_health (if r.svc304 then cached_services cached else r.services)
unfolding merged_services
merged_services-without_health r cached =
    let base = if r.svc304 then cached_services cached else r.services in
    elim (Option-cases r.health_map) [
      | inl e ↦
          simp (e, merged_services)
            (ground (arith, inherit_cached_health-without_health cached base))
      | inr (m, e) ↦
          simp (e, merged_services)
            (ground (
              arith,
              inherit_cached_health-without_health cached base,
              overlay_health-without_health m base,
            ))
    ]

pub lookup-fresh_cache_kept :
    (now : ℕ) (k : Text) (m : Dict CachedPeerServices) (cached : CachedPeerServices)
    → lookup k m ≡ some cached
    → is_expired now cached ≡ false
    → lookup k (fresh_cache now m) ≡ some cached
unfolding fresh_cache lookup
lookup-fresh_cache_kept now k [] cached e x = e
lookup-fresh_cache_kept now k ((ip, v) ∷ m) cached e x = elim (Bool-cases (ip == k)) [
  | inl same ↦
      let found : ◌≡◌ {A = Option CachedPeerServices} (some v) (some cached) = ground arith in
      let here : is_expired now v ≡ false = ap (is_expired now) (some_eq found) ∙ x in
      rw (here, same) found
  | inr other ↦
      let found : lookup k m ≡ some cached = ground arith in
      let later = lookup-fresh_cache_kept now k m cached found x in
      elim (Bool-cases (is_expired now v)) [
        | inl old ↦ rw old later
        | inr new ↦ rw (new, other) later
      ]
]

in_set-expired_ips-none :
    (now : ℕ) (k : Text) (m : Dict CachedPeerServices)
    → lookup k m ≡ none
    → in_set k (expired_ips now m) ≡ false
unfolding expired_ips lookup in_set
in_set-expired_ips-none now k [] e = refl
in_set-expired_ips-none now k ((ip, v) ∷ m) e = elim (Bool-cases (ip == k)) [
  | inl same ↦ ground (arith, same, e)
  | inr other ↦
      let found : lookup k m ≡ none = ground arith in
      ground (arith, other, in_set-expired_ips-none now k m found)
]

in_set-expired_ips_kept :
    (now : ℕ) (k : Text) (m : Dict CachedPeerServices) (cached : CachedPeerServices)
    → Distinct m
    → lookup k m ≡ some cached
    → is_expired now cached ≡ false
    → in_set k (expired_ips now m) ≡ false
unfolding expired_ips lookup in_set
in_set-expired_ips_kept now k [] cached d e x = refl
in_set-expired_ips_kept now k ((ip, v) ∷ m) cached d e x = elim (Bool-cases (ip == k)) [
  | inl same ↦
      let found : ◌≡◌ {A = Option CachedPeerServices} (some v) (some cached) = ground arith in
      let here : is_expired now v ≡ false = ap (is_expired now) (some_eq found) ∙ x in
      let gone : lookup k m ≡ none = ground (arith, d.0, ==_iff ip k) in
      rw here (in_set-expired_ips-none now k m gone)
  | inr other ↦
      let found : lookup k m ≡ some cached = ground arith in
      ground (arith, other, in_set-expired_ips_kept now k m cached d.1 found x)
]

lookup-delete_all_other :
    {V : Type 0}
    → (k : Text) (ks : List Text) (m : Dict V) → in_set k ks ≡ false
    → lookup k (delete_all ks m) ≡ lookup k m
unfolding delete_all in_set
lookup-delete_all_other k [] m h = refl
lookup-delete_all_other k (j ∷ ks) m h =
    let other : (j == k) ≡ false = ground arith in
    lookup-delete_all_other k ks (delete j m) (ground arith)
    ∙ ground (arith, other, lookup-delete j k m)

-- Eviction keeps the `Last-Modified` of a snapshot that it keeps.
pub evict-last_modified_svc :
    (now : ℕ) (k : Text) (c : Collector) (cached : CachedPeerServices)
    → Distinct c.service_cache
    → lookup k c.service_cache ≡ some cached
    → is_expired now cached ≡ false
    → lookup k (evict_expired_service_cache now c).last_modified_svc ≡ lookup k c.last_modified_svc
unfolding evict_expired_service_cache
evict-last_modified_svc now k c cached d e x =
    lookup-delete_all_other k _ c.last_modified_svc
      (in_set-expired_ips_kept now k c.service_cache cached d e x)

-- The result of a healthy peer is in the cache at the end of the refresh.
pub finish-cache :
    (now : ℕ) (r : PeerResult) (p : PeerInfo) (a : Applied) (c : Collector)
    → is_ok r.health ≡ true
    → lookup p.tailscale_ip (finish now (apply_to now r p a) c).service_cache
      ≡ some (record {
        services = merged_services r (lookup p.tailscale_ip a.cache);
        fetched_at = now;
      })
unfolding finish evict_expired_service_cache apply_to
finish-cache now r p a c ok_ =
    let snapshot : CachedPeerServices = record {
      services = merged_services r (lookup p.tailscale_ip a.cache);
      fetched_at = now;
    } in
    simp ok_ (
      lookup-fresh_cache_kept now p.tailscale_ip _ snapshot
        (ground (
          arith,
          lookup-insert p.tailscale_ip p.tailscale_ip snapshot a.cache,
          ==_self p.tailscale_ip,
        ))
        (ground arith))
