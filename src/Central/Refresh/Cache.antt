-- ===== src/Central/Refresh/Cache.antt =====
-- The cache of services after a refresh, and the conditional requests that go with it.
use tailscale_metrics_discov.Common.{
  ℕ, ◌≡◌, refl, sym, ap, ◌∙◌, subst, true, List, [], ◌∷◌, Option, none, some, arith, Bool-cases,
  inl, inr, some_eq, ◌≤◌, ◌+◌,
}
use tailscale_metrics_discov.Common.Text.{Text, ◌==◌}
use tailscale_metrics_discov.Common.Dict.{Dict, lookup, delete, lookup-delete, AllValues}
use tailscale_metrics_discov.Central.Discovery.{Discoverer, PeerStatus, discover, in_set}
use tailscale_metrics_discov.Central.Collector.{
  Collector, CachedPeerServices, service_history_ttl, is_expired, fresh_cache, expired_ips,
  delete_all, evict_expired_service_cache,
}
use tailscale_metrics_discov.Central.Refresh.{World, finish, refreshed, refresh}

-- Fetched at most 72 hours ago.
abbrev pub IsFresh : ℕ → CachedPeerServices → Type 0
IsFresh now cached = now ≤ cached.fetched_at + service_history_ttl

fresh_cache-IsFresh :
    (now : ℕ) (m : Dict CachedPeerServices) → AllValues (IsFresh now) (fresh_cache now m)
unfolding fresh_cache
fresh_cache-IsFresh now [] = tt
fresh_cache-IsFresh now ((ip, cached) ∷ m) = elim (Bool-cases (is_expired now cached)) [
  | inl e ↦ rw e (fresh_cache-IsFresh now m)
  | inr e ↦ rw e (ground arith, fresh_cache-IsFresh now m)
]

-- After a refresh that reaches the local daemon, every cached snapshot is at most 72 hours old.
pub refresh-IsFresh :
    (w : World) (d : Discoverer) (c : Collector) (st : List PeerStatus)
    → w.status ≡ some st
    → AllValues (IsFresh w.now) (refresh w d c).service_cache
unfolding refresh refreshed finish discover evict_expired_service_cache
refresh-IsFresh w d c st up =
    subst (λ s. AllValues (IsFresh w.now) (refreshed (discover s d) w d c).service_cache) (sym up)
      (fresh_cache-IsFresh w.now _)

lookup-delete_all-none :
    {V : Type 0}
    → (k : Text) (ks : List Text) (m : Dict V) → lookup k m ≡ none
    → lookup k (delete_all ks m) ≡ none
unfolding delete_all
lookup-delete_all-none k [] m h = h
lookup-delete_all-none k (j ∷ ks) m h =
    lookup-delete_all-none k ks (delete j m) (ground (arith, lookup-delete j k m))

lookup-delete_all :
    {V : Type 0}
    → (k : Text) (ks : List Text) (m : Dict V) → in_set k ks ≡ true
    → lookup k (delete_all ks m) ≡ none
unfolding delete_all in_set
lookup-delete_all k [] m h = cc
lookup-delete_all k (j ∷ ks) m h = elim (Bool-cases (j == k)) [
  | inl e ↦ lookup-delete_all-none k ks (delete j m) (ground (arith, lookup-delete j k m))
  | inr e ↦ lookup-delete_all k ks (delete j m) (ground arith)
]

lookup-fresh_cache :
    (now : ℕ) (k : Text) (m : Dict CachedPeerServices) (cached : CachedPeerServices)
    → lookup k m ≡ some cached
    → is_expired now cached ≡ true
    → in_set k (expired_ips now m) ≡ true
unfolding expired_ips lookup in_set
lookup-fresh_cache now k [] cached e x = cc
lookup-fresh_cache now k ((ip, v) ∷ m) cached e x = elim (Bool-cases (ip == k)) [
  | inl same ↦
      let found : ◌≡◌ {A = Option CachedPeerServices} (some v) (some cached) = ground arith in
      let here : is_expired now v ≡ true = ap (is_expired now) (some_eq found) ∙ x in
      rw (here, same) refl
  | inr other ↦
      let found : lookup k m ≡ some cached = ground arith in
      let later = lookup-fresh_cache now k m cached found x in
      elim (Bool-cases (is_expired now v)) [
        | inl old ↦ rw (old, other) later
        | inr new ↦ rw new later
      ]
]

-- When the cached snapshot of an address is older than 72 hours, eviction also forgets both of its
-- `Last-Modified` values, so the next requests to it are unconditional.
pub evict-forgets :
    (now : ℕ) (k : Text) (c : Collector) (cached : CachedPeerServices)
    → lookup k c.service_cache ≡ some cached
    → is_expired now cached ≡ true
    → (lookup k (evict_expired_service_cache now c).last_modified_svc ≡ none)
      × (lookup k (evict_expired_service_cache now c).last_modified_health ≡ none)
unfolding evict_expired_service_cache
evict-forgets now k c cached e x =
    let gone = lookup-fresh_cache now k c.service_cache cached e x in
    (
      lookup-delete_all k _ c.last_modified_svc gone,
      lookup-delete_all k _ c.last_modified_health gone,
    )
