-- ===== src/Central/PeerCache/RoundTrip.antt =====
-- What a restarted central knows of its peers.
use tailscale_metrics_discov.Common.{
  ℕ, ◌≡◌, refl, ap, ◌∙◌, true, false, List, [], ◌∷◌, Option, none, some, arith, if◌then◌else◌,
}
use tailscale_metrics_discov.Common.Text.{Text, ◌==◌, ==_iff}
use tailscale_metrics_discov.Common.Dict.{Dict, lookup, insert, lookup-insert, Distinct}
use tailscale_metrics_discov.Common.Sorting.{find_by}
use tailscale_metrics_discov.Protocol.{PeerInfo}
use tailscale_metrics_discov.Central.Collector.{
  Collector, CachedPeerServices, is_expired, new_collector,
}
use tailscale_metrics_discov.Central.PeerCache.{
  PeerCacheEntry, cache_entry, cache_entries, load_entries, save_peer_cache, load_peer_cache,
  peer_ip,
}

-- A snapshot of the cache, unless it is too old.
abbrev pub unexpired :
    ℕ → Option CachedPeerServices → Option CachedPeerServices → Option CachedPeerServices
unexpired now o none = o
unexpired now o (some cached) = if is_expired now cached then o else some cached

entry_loaded :
    (now : ℕ) (ip : Text) (cached : CachedPeerServices) (o : Option PeerInfo)
    (es : List PeerCacheEntry) (m : Dict CachedPeerServices)
    → load_entries now (cache_entry ip cached o ∷ es) m
      ≡ load_entries now es (if is_expired now cached then m else insert ip cached m)
unfolding load_entries cache_entry
entry_loaded now ip cached none es m = refl
entry_loaded now ip cached (some p) es m = refl

load_entries-cache_entries :
    (now : ℕ) (k : Text) (peers : List PeerInfo) (m acc : Dict CachedPeerServices)
    → Distinct m
    → lookup k (load_entries now (cache_entries peers m) acc)
      ≡ unexpired now (lookup k acc) (lookup k m)
unfolding cache_entries lookup load_entries
load_entries-cache_entries now k peers [] acc d = refl
load_entries-cache_entries now k peers ((ip, cached) ∷ m) acc d =
    let next = if is_expired now cached then acc else insert ip cached acc in
    ap (lookup k)
      (entry_loaded now ip cached (find_by peer_ip ip peers) (cache_entries peers m) acc)
    ∙ load_entries-cache_entries now k peers m next d.1
    ∙ ground (arith, d.0, lookup-insert ip k cached acc, ==_iff ip k)

-- A cache that is written to its file, and read back by a central that starts anew, holds under each
-- address the snapshot that was saved, if it is at most 72 hours old by then, and else nothing. There is
-- a path for the file, and the map has each address once; asked of the JSON library is that it decodes
-- what it encoded.
pub load-save :
    {Document : Type 0}
    → (encode : List PeerCacheEntry → Document) → (decode : Document → Option (List PeerCacheEntry))
    → ((es : List PeerCacheEntry) → decode (encode es) ≡ some es)
    → (peers_file token : Text) → (peers_file == []) ≡ false
    → (c : Collector) → Distinct c.service_cache
    → (now : ℕ) (file : Option Document) (k : Text)
    → lookup k
        (load_peer_cache decode peers_file now
          (save_peer_cache encode peers_file true c file)
          (new_collector token)).service_cache
      ≡ unexpired now none (lookup k c.service_cache)
unfolding load_peer_cache save_peer_cache new_collector lookup
load-save encode decode inverse peers_file token named c d now file k =
    rw (named, named, inverse (cache_entries c.peers c.service_cache))
      (load_entries-cache_entries now k c.peers c.service_cache [] d)
