-- ===== src/Central/PeerCache.antt =====
-- internal/central/collector.go: the cache of services as a file, written after a refresh and read when
-- the central starts. A JSON document, its encoder and its decoder are parameters. The loop over the cache runs in the
-- order of the association list that stands for the map.
pub mod RoundTrip
use tailscale_metrics_discov.Common.{ℕ, Bool, List, [], ◌∷◌, Option, none, some, if◌then◌else◌}
use tailscale_metrics_discov.Common.Text.{Text, ◌==◌}
use tailscale_metrics_discov.Common.Dict.{Dict, insert}
use tailscale_metrics_discov.Common.Sorting.{find_by}
use tailscale_metrics_discov.Protocol.{ServiceEntry, PeerInfo, PeerSource}
use tailscale_metrics_discov.Central.Collector.{Collector, CachedPeerServices, is_expired}

-- A peer that is not on the current list has no source.
pub record PeerCacheEntry : Type 0 where
  pub tailscale_ip : Text
  pub hostname : Text
  pub tags : List Text
  pub agent_url : Text
  pub source : Option PeerSource
  pub services : List ServiceEntry
  pub fetched_at : ℕ

abbrev pub peer_ip : PeerInfo → Text
peer_ip p = p.tailscale_ip

unfoldable pub cache_entry : Text → CachedPeerServices → Option PeerInfo → PeerCacheEntry
cache_entry ip cached none = record {
  tailscale_ip = ip;
  hostname = [];
  tags = [];
  agent_url = [];
  source = none;
  services = cached.services;
  fetched_at = cached.fetched_at;
}
cache_entry ip cached (some p) = record {
  tailscale_ip = ip;
  hostname = p.hostname;
  tags = p.tags;
  agent_url = p.agent_url;
  source = some p.source;
  services = cached.services;
  fetched_at = cached.fetched_at;
}

unfoldable pub cache_entries : List PeerInfo → Dict CachedPeerServices → List PeerCacheEntry
cache_entries peers [] = []
cache_entries peers ((ip, cached) ∷ m) =
    cache_entry ip cached (find_by peer_ip ip peers) ∷ cache_entries peers m

unfoldable pub load_entries :
    ℕ → List PeerCacheEntry → Dict CachedPeerServices → Dict CachedPeerServices
load_entries now [] m = m
load_entries now (e ∷ es) m =
    let cached : CachedPeerServices = record { services = e.services; fetched_at = e.fetched_at } in
    load_entries now es (if is_expired now cached then m else insert e.tailscale_ip cached m)

-- A file is what it holds, if it is there. `peers_file` is its path, empty if the cache is off.
unfoldable pub save_peer_cache :
    {Document : Type 0}
    → (List PeerCacheEntry → Document)
    → Text
    → Bool
    → Collector
    → Option Document
    → Option Document
save_peer_cache encode peers_file writes c file =
    if peers_file == []
    then file
    else if writes
    then some (encode (cache_entries c.peers c.service_cache))
    else file

abbrev pub load_decoded : ℕ → Option (List PeerCacheEntry) → Collector → Collector
load_decoded now none c = c
load_decoded now (some es) c = record c { service_cache = load_entries now es c.service_cache }

unfoldable pub load_peer_cache :
    {Document : Type 0}
    → (Document → Option (List PeerCacheEntry))
    → Text
    → ℕ
    → Option Document
    → Collector
    → Collector
load_peer_cache decode peers_file now none c = c
load_peer_cache decode peers_file now (some data') c =
    if peers_file == [] then c else load_decoded now (decode data') c
