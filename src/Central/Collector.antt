-- ===== src/Central/Collector.antt =====
-- internal/central/collector.go: the state of the collector and the queries to one agent. An agent
-- is a function from requests to what `httpClient.Do` and the JSON decoder bring back.
use tailscale_metrics_discov.Common.{
  ℕ, ◌+◌, ◌*◌, Bool, true, false, List, [], ◌∷◌, ◌++◌, Option, none, some, ltb, eqb, ℤ,
  if◌then◌else◌,
}
use tailscale_metrics_discov.Common.Text.{Text, text, ◌==◌}
use tailscale_metrics_discov.Common.Dict.{Dict, lookup, insert, delete, has}
use tailscale_metrics_discov.Protocol.{
  SdTarget, ServiceEntry, ServiceHealthStatus, PeerInfo, AgentHealth,
}
use tailscale_metrics_discov.Config
use tailscale_metrics_discov.Agent.Registry.{second}

pub record ManualPeer : Type 0 where
  pub name : Text
  pub address : Text
  pub port : ℤ
  pub from_config : Bool

abbrev pub service_history_ttl : ℕ
service_history_ttl = 72 * 3600 * second

pub record CachedPeerServices : Type 0 where
  pub services : List ServiceEntry
  pub fetched_at : ℕ

pub record Collector : Type 0 where
  pub agent_token : Text
  pub peers : List PeerInfo
  pub targets : List SdTarget
  pub ts_down : Bool
  pub service_cache : Dict CachedPeerServices
  pub manual_peers : Dict ManualPeer
  pub last_modified_svc : Dict Text
  pub last_modified_health : Dict Text

unfoldable pub new_collector : Text → Collector
new_collector token = record {
  agent_token = token;
  peers = [];
  targets = [];
  ts_down = false;
  service_cache = [];
  manual_peers = [];
  last_modified_svc = [];
  last_modified_health = [];
}

unfoldable pub update_agent_token : Text → Collector → Collector
update_agent_token token c = record c { agent_token = token }

-- for addr, mp := range c.manualPeers { if mp.fromConfig { delete } }
unfoldable pub drop_config_peers : Dict ManualPeer → Dict ManualPeer
drop_config_peers [] = []
drop_config_peers ((k, mp) ∷ m) =
    let rest = drop_config_peers m in if mp.from_config then rest else (k, mp) ∷ rest

unfoldable pub add_config_peers : List Config.ManualPeer → Dict ManualPeer → Dict ManualPeer
add_config_peers [] m = m
add_config_peers (p ∷ ps) m = add_config_peers ps (
    insert p.address
      (record { name = p.name; address = p.address; port = p.port; from_config = true }) m)

unfoldable pub replace_config_peers : List Config.ManualPeer → Collector → Collector
replace_config_peers ps c = record c {
  manual_peers = add_config_peers ps (drop_config_peers c.manual_peers);
}

unfoldable pub add_manual_peer : ManualPeer → Collector → Collector
add_manual_peer mp c = record c { manual_peers = insert mp.address mp c.manual_peers }

unfoldable pub remove_manual_peer : Text → Collector → Collector × Bool
remove_manual_peer address c =
    if has address c.manual_peers
    then (record c { manual_peers = delete address c.manual_peers }, true)
    else (c, false)

-- now.Sub(fetchedAt) > serviceHistoryTTL
abbrev pub is_expired : ℕ → CachedPeerServices → Bool
is_expired now cached = ltb (cached.fetched_at + service_history_ttl) now

-- The addresses that the loop of `evictExpiredServiceCache` collects, and the cache without them.
unfoldable pub fresh_cache : ℕ → Dict CachedPeerServices → Dict CachedPeerServices
fresh_cache now [] = []
fresh_cache now ((ip, cached) ∷ m) =
    let rest = fresh_cache now m in if is_expired now cached then rest else (ip, cached) ∷ rest

unfoldable pub expired_ips : ℕ → Dict CachedPeerServices → List Text
expired_ips now [] = []
expired_ips now ((ip, cached) ∷ m) =
    let rest = expired_ips now m in if is_expired now cached then ip ∷ rest else rest

unfoldable pub delete_all : {V : Type 0} → List Text → Dict V → Dict V
delete_all [] m = m
delete_all (k ∷ ks) m = delete_all ks (delete k m)

unfoldable pub evict_expired_service_cache : ℕ → Collector → Collector
evict_expired_service_cache now c =
    let expired = expired_ips now c.service_cache in
    record c {
      service_cache = fresh_cache now c.service_cache;
      last_modified_svc = delete_all expired c.last_modified_svc;
      last_modified_health = delete_all expired c.last_modified_health;
    }

pub record Request : Type 0 where
  pub url : Text
  pub authorization : Option Text
  pub if_modified_since : Option Text

-- The outcome of an exchange: no request or no response, or a response with its status code, its
-- `Last-Modified` header and its decoded body.
pub data Exchange (B : Type 0) : Type 0 where
  unreachable : Exchange B
  answered : ℕ → Text → Option B → Exchange B

pub record HealthBody : Type 0 where
  -- JSON null is a nil map, a null entry a nil pointer
  pub entries : Option (Dict (Option ServiceHealthStatus))

-- An agent, or the network in front of it.
pub record Agent : Type 0 where
  pub services : Request → Exchange (List ServiceEntry)
  pub health : Request → Exchange HealthBody

abbrev pub authorization_of : Text → Option Text
authorization_of token = if token == [] then none else some (text "Bearer " ++ token)

-- The header is sent only while the peer's services are cached.
unfoldable pub query_request : Text → Dict Text → PeerInfo → Collector → Request
query_request path modified peer c = record {
  url = peer.agent_url ++ path;
  authorization = authorization_of c.agent_token;
  if_modified_since =
      if has peer.tailscale_ip c.service_cache then lookup peer.tailscale_ip modified else none;
}

abbrev pub services_request : PeerInfo → Collector → Request
services_request peer c = query_request (text "/api/v1/services") c.last_modified_svc peer c

abbrev pub health_request : PeerInfo → Collector → Request
health_request peer c = query_request (text "/api/v1/services/health") c.last_modified_health peer c

pub record ServicesReply : Type 0 where
  pub services : List ServiceEntry
  pub health : AgentHealth
  pub not_modified : Bool

pub record HealthReply : Type 0 where
  pub health_map : Option (Dict (Option ServiceHealthStatus))
  pub health : AgentHealth
  pub not_modified : Bool

-- The status codes that both queries tell apart.
pub data Answer : Type 0 where
  ok not_modified not_found denied other : Answer

unfoldable pub answer_of : ℕ → Answer
answer_of code =
    if eqb code 304
    then Answer.not_modified
    else if eqb code 404
    then Answer.not_found
    else if eqb code 401
    then Answer.denied
    else if eqb code 403
    then Answer.denied
    else if eqb code 200
    then Answer.ok
    else Answer.other

-- if lm := resp.Header.Get("Last-Modified"); lm != "" { modified[ip] = lm }
abbrev pub store_modified : Text → Text → Dict Text → Dict Text
store_modified ip lm modified = if lm == [] then modified else insert ip lm modified

abbrev pub no_services : AgentHealth → ServicesReply
no_services h = record { services = []; health = h; not_modified = false }

abbrev pub no_health : AgentHealth → HealthReply
no_health h = record { health_map = none; health = h; not_modified = false }

abbrev pub decoded_services : Option (List ServiceEntry) → ServicesReply
decoded_services none = no_services AgentHealth.timeout
decoded_services (some es) = record { services = es; health = AgentHealth.ok; not_modified = false }

abbrev pub decoded_health : Option HealthBody → HealthReply
decoded_health none = no_health AgentHealth.timeout
decoded_health (some b) = record {
  health_map = b.entries;
  health = AgentHealth.ok;
  not_modified = false;
}

unfoldable pub services_answer :
    Answer → Text → Option (List ServiceEntry) → PeerInfo → Collector → Collector × ServicesReply
services_answer Answer.not_modified lm body peer c =
    (c, record { services = []; health = AgentHealth.ok; not_modified = true })
services_answer Answer.denied lm body peer c = (c, no_services AgentHealth.unauthorized)
services_answer Answer.ok lm body peer c = (
  record c { last_modified_svc = store_modified peer.tailscale_ip lm c.last_modified_svc },
  decoded_services body,
)
services_answer Answer.not_found lm body peer c = (c, no_services AgentHealth.timeout)
services_answer Answer.other lm body peer c = (c, no_services AgentHealth.timeout)

unfoldable pub receive_services :
    Exchange (List ServiceEntry) → PeerInfo → Collector → Collector × ServicesReply
receive_services Exchange.unreachable peer c = (c, no_services AgentHealth.timeout)
receive_services (Exchange.answered code lm body) peer c =
    services_answer (answer_of code) lm body peer c

unfoldable pub query_agent_services : Agent → PeerInfo → Collector → Collector × ServicesReply
query_agent_services a peer c = receive_services (a.services (services_request peer c)) peer c

unfoldable pub health_answer :
    Answer → Text → Option HealthBody → PeerInfo → Collector → Collector × HealthReply
health_answer Answer.not_modified lm body peer c =
    (c, record { health_map = none; health = AgentHealth.ok; not_modified = true })
health_answer Answer.not_found lm body peer c = (c, no_health AgentHealth.ok)
health_answer Answer.denied lm body peer c = (c, no_health AgentHealth.unauthorized)
health_answer Answer.ok lm body peer c = (
  record c { last_modified_health = store_modified peer.tailscale_ip lm c.last_modified_health },
  decoded_health body,
)
health_answer Answer.other lm body peer c = (c, no_health AgentHealth.timeout)

unfoldable pub receive_health : Exchange HealthBody → PeerInfo → Collector → Collector × HealthReply
receive_health Exchange.unreachable peer c = (c, no_health AgentHealth.timeout)
receive_health (Exchange.answered code lm body) peer c =
    health_answer (answer_of code) lm body peer c

unfoldable pub query_agent_health : Agent → PeerInfo → Collector → Collector × HealthReply
query_agent_health a peer c = receive_health (a.health (health_request peer c)) peer c

-- The rank of `worseHealth`.
unfoldable pub rank : AgentHealth → ℕ
rank AgentHealth.ok = 0
rank AgentHealth.unknown = 1
rank AgentHealth.timeout = 2
rank AgentHealth.unauthorized = 3
rank AgentHealth.offline = 4

unfoldable pub worse_health : AgentHealth → AgentHealth → AgentHealth
unfolding rank
worse_health a b = if ltb (rank a) (rank b) then b else a
