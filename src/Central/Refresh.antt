-- ===== src/Central/Refresh.antt =====
-- `refresh` of internal/central/collector.go. The goroutines of one refresh send their results in
-- any order, so the order of arrival is an argument. Of two peers with one Tailscale IP, which share
-- a cache entry, the queries are taken in the order of the list.
pub mod Initial
pub mod Arrival
pub mod Targets
pub mod Cache
pub mod Kept
pub mod Stale
pub mod Healthy
use tailscale_metrics_discov.Common.{
  ℕ, zero, suc, ◌+◌, ◌≡◌, Bool, true, false, not, ◌&&◌, List, [], ◌∷◌, ◌++◌, Option, none, some, ℤ,
  is_empty, get_elem?, is_some, if◌then◌else◌,
}
use tailscale_metrics_discov.Common.Text.{Text, ◌==◌}
use tailscale_metrics_discov.Common.Dict.{Dict, lookup, insert}
use tailscale_metrics_discov.Protocol.{
  SdTarget, ServiceEntry, ServiceHealthStatus, PeerInfo, AgentHealth,
}
use tailscale_metrics_discov.Central.Collector.{
  Collector, ManualPeer, CachedPeerServices, Agent, ServicesReply, HealthReply, is_expired,
  query_agent_services, query_agent_health, worse_health, evict_expired_service_cache,
}
use tailscale_metrics_discov.Central.Discovery.{Discoverer, PeerStatus, discover, override_port}
use tailscale_metrics_discov.Central.Merge.{merge_peers}

pub record PeerResult : Type 0 where
  pub idx : ℕ
  pub services : List ServiceEntry
  pub health_map : Option (Dict (Option ServiceHealthStatus))
  pub health : AgentHealth
  pub svc304 : Bool
  pub health304 : Bool

abbrev pub is_offline : AgentHealth → Bool
is_offline AgentHealth.offline = true
is_offline _ = false

abbrev pub is_ok : AgentHealth → Bool
is_ok AgentHealth.ok = true
is_ok _ = false

-- A cached snapshot that is still within its time, for a peer that cannot be asked.
abbrev pub restored : ℕ → Option CachedPeerServices → PeerInfo → PeerInfo
restored now none p = p
restored now (some cached) p =
    if is_expired now cached
    then p
    else record p { services = cached.services; services_updated_at = some cached.fetched_at }

unfoldable pub restore_offline : ℕ → Dict CachedPeerServices → List PeerInfo → List PeerInfo
restore_offline now cache [] = []
restore_offline now cache (p ∷ ps) =
    (if is_offline p.health then restored now (lookup p.tailscale_ip cache) p else p)
    ∷ restore_offline now cache ps

-- Both queries of one peer.
unfoldable pub query_peer : Agent → ℕ → PeerInfo → Collector → Collector × PeerResult
query_peer a idx peer c =
    let (c', svc) = query_agent_services a peer c in
    let (c'', hlth) = query_agent_health a peer c' in
    (
      c'',
      record {
        idx = idx;
        services = svc.services;
        health_map = hlth.health_map;
        health = worse_health svc.health hlth.health;
        svc304 = svc.not_modified;
        health304 = hlth.not_modified;
      },
    )

-- The queries of the peers that are not offline, with the indices of the list from `idx` on.
unfoldable pub query_peers :
    (PeerInfo → Agent) → ℕ → List PeerInfo → Collector → Collector × List PeerResult
query_peers agents idx [] c = (c, [])
query_peers agents idx (p ∷ ps) c =
    let (c', r) = query_peer (agents p) idx p c in
    let (d, rs) = query_peers agents (suc idx) ps (if is_offline p.health then c else c') in
    (d, if is_offline p.health then rs else r ∷ rs)

-- services[i].Health = h for the names that the map has
unfoldable pub overlay_health :
    Dict (Option ServiceHealthStatus) → List ServiceEntry → List ServiceEntry
overlay_health m [] = []
overlay_health m (e ∷ es) =
    (elim (lookup e.name m) [ none ↦ e | some h ↦ record e { health = h } ]) ∷ overlay_health m es

-- `healthByName`
unfoldable pub health_by_name :
    List ServiceEntry → Dict ServiceHealthStatus → Dict ServiceHealthStatus
health_by_name [] m = m
health_by_name (e ∷ es) m =
    health_by_name es (elim e.health [ none ↦ m | some h ↦ insert e.name h m ])

unfoldable pub inherit_health : Dict ServiceHealthStatus → List ServiceEntry → List ServiceEntry
inherit_health m [] = []
inherit_health m (e ∷ es) =
    (elim e.health [ some h ↦ e | none ↦ record e { health = lookup e.name m } ])
    ∷ inherit_health m es

unfoldable pub inherit_cached_health :
    Option CachedPeerServices → List ServiceEntry → List ServiceEntry
inherit_cached_health none es = es
inherit_cached_health (some cached) es = inherit_health (health_by_name cached.services []) es

abbrev pub cached_services : Option CachedPeerServices → List ServiceEntry
cached_services none = []
cached_services (some cached) = cached.services

-- The services of a peer that answered: the base list, with the health that goes with it.
unfoldable pub merged_services : PeerResult → Option CachedPeerServices → List ServiceEntry
merged_services r cached =
    let base = if r.svc304 then cached_services cached else r.services in
    let inherited =
      if r.health304 && not r.svc304 then inherit_cached_health cached base else base in
    elim r.health_map [
      | none ↦ inherited
      | some m ↦ if r.health304 then inherited else overlay_health m base
    ]

-- The loop state while results are applied.
pub record Applied : Type 0 where
  pub cache : Dict CachedPeerServices
  pub peers : List PeerInfo
  pub targets : List SdTarget

unfoldable pub set_peer : ℕ → PeerInfo → List PeerInfo → List PeerInfo
set_peer i q [] = []
set_peer zero q (p ∷ ps) = q ∷ ps
set_peer (suc i) q (p ∷ ps) = p ∷ set_peer i q ps

abbrev pub targets_of : List ServiceEntry → List SdTarget
targets_of [] = []
targets_of (e ∷ es) = e.target ∷ targets_of es

-- One result, for the peer that its index names.
unfoldable pub apply_to : ℕ → PeerResult → PeerInfo → Applied → Applied
apply_to now r p a =
    let cached = lookup p.tailscale_ip a.cache in
    let services = merged_services r cached in
    let asked = record p { health = r.health } in
    if is_ok r.health
    then record {
      cache = insert p.tailscale_ip (record { services = services; fetched_at = now }) a.cache;
      peers =
          set_peer r.idx (record asked { services = services; services_updated_at = some now })
            a.peers;
      targets = a.targets ++ targets_of services;
    }
    else record a { peers = set_peer r.idx (restored now cached asked) a.peers }

-- An index out of the list would be a panic; the indices come from the list.
unfoldable pub apply_result : ℕ → PeerResult → Applied → Applied
apply_result now r a = elim (get_elem? a.peers r.idx) [ none ↦ a | some p ↦ apply_to now r p a ]

unfoldable pub apply_results : ℕ → List PeerResult → Applied → Applied
apply_results now [] a = a
apply_results now (r ∷ rs) a = apply_results now rs (apply_result now r a)

-- What one refresh meets: the daemon's status, the agents, the clock, and how results arrive.
pub record World : Type 0 where
  pub status : Option (List PeerStatus)
  pub agents : PeerInfo → Agent
  pub now : ℕ
  pub arrival : List PeerResult → List PeerResult
  pub is_ip : Text → Bool

-- The peers that a refresh asks about, before any answer.
unfoldable pub known_peers : World → Discoverer → List PeerInfo → Collector → List PeerInfo
known_peers w d auto c =
    restore_offline w.now c.service_cache (merge_peers w.is_ip d.port c.manual_peers auto)

abbrev pub started : List PeerInfo → Collector → Applied
started ps c = record { cache = c.service_cache; peers = ps; targets = [] }

unfoldable pub finish : ℕ → Applied → Collector → Collector
finish now a c = record (evict_expired_service_cache now (record c { service_cache = a.cache })) {
  peers = a.peers;
  targets = a.targets;
}

-- A refresh after its discovery, which an error of the local daemon ends.
unfoldable pub refreshed : Option (List PeerInfo) → World → Discoverer → Collector → Collector
refreshed none w d c = record c { ts_down = true }
refreshed (some auto) w d c =
    let up = record c { ts_down = false } in
    let ps = known_peers w d auto up in
    let (c', rs) = query_peers w.agents 0 ps up in
    finish w.now (apply_results w.now (w.arrival rs) (started ps c')) c'

unfoldable pub refresh : World → Discoverer → Collector → Collector
refresh w d c = refreshed (discover w.status d) w d c
