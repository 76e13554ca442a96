-- ===== src/Central/Discovery/Peers.antt =====
-- What `Discover` of internal/central/discovery.go finds.
use tailscale_metrics_discov.Common.{
  ◌≡◌, ◌≢◌, ◌<◌, ◌⊎◌, pos, true, false, List, [], Option, none, some, ℤ, is_empty, All,
}
use tailscale_metrics_discov.Common.Text.{Text, ◌==◌}
use tailscale_metrics_discov.Protocol.{PeerInfo, AgentHealth}
use tailscale_metrics_discov.Central.Discovery.{NodeAttrs, Discoverer, in_set, agent_url}

-- A peer that was found: it has a tag of the filter and an address, and it is online, of unknown
-- health and asked at that address, or it is offline and there is no address to ask it at.
abbrev pub IsFound : List Text → ℤ → PeerInfo → Type 0
IsFound set port p =
    (is_empty p.tags ≡ false)
    × (All (λ t. in_set t set ≡ true) p.tags
        × (((p.tailscale_ip == []) ≡ false)
            × (((p.health ≡ AgentHealth.unknown) × (p.agent_url ≡ agent_url p.tailscale_ip port))
                ⊎ ((p.health ≡ AgentHealth.offline) × (p.agent_url ≡ [])))))

abbrev FoundIfAny : List Text → ℤ → Option PeerInfo → Type 0
FoundIfAny set port none = Unit
FoundIfAny set port (some p) = IsFound set port p

-- The filter: the tags that the node attributes name, or the configured ones if they name none.
abbrev pub HasTags : Option NodeAttrs → List Text → List Text → Type 0
HasTags none tags set = set ≡ tags
HasTags (some a) tags set =
    ((a.agent_tags ≡ []) × (set ≡ tags)) ⊎ ((a.agent_tags ≢ []) × (set ≡ a.agent_tags))

-- The port: that of the node attributes, with or without tags beside it, or the configured one.
abbrev pub HasPort : Option NodeAttrs → ℤ → ℤ → Type 0
HasPort none port asked = asked ≡ port
HasPort (some a) port asked =
    ((a.agent_port ≡ 0) × (asked ≡ port)) ⊎ ((0 < a.agent_port) × (asked ≡ pos a.agent_port))

pub record Discovered (d : Discoverer) (ps : List PeerInfo) : Type 0 where
  pub set : List Text
  pub asked : ℤ
  pub has_tags : HasTags d.self_attrs d.tags set
  pub has_port : HasPort d.self_attrs d.port asked
  pub found : All (IsFound set asked) ps
