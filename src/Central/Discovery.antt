-- ===== src/Central/Discovery.antt =====
-- internal/central/discovery.go and internal/tsutil/attrs.go: which nodes run an agent, and what the
-- tailnet policy says of tags and ports. The status of the local Tailscale daemon is an argument.
pub mod Attrs
pub mod Peers
use mathlib.Core.Option
use tailscale_metrics_discov.Common.{
  ℕ, zero, suc, ◌+◌, ◌-◌, ◌*◌, ◌≡◌, Bool, true, false, not, ◌&&◌, ◌||◌, List, [], ◌∷◌, ◌++◌, Option,
  none, some, leb, ltb, eqb, ℤ, pos, negsuc, is_positive, is_empty, is_some, if◌then◌else◌,
}
use tailscale_metrics_discov.Common.Decimal.{show_int}
use tailscale_metrics_discov.Common.Text.{Text, text, ◌==◌, cut_prefix, trim_suffix}
use tailscale_metrics_discov.Protocol.{PeerInfo, PeerSource, AgentHealth}

pub record NodeAttrs : Type 0 where
  pub agent_tags : List Text
  pub central_tags : List Text
  pub agent_port : ℕ

abbrev pub no_attrs : NodeAttrs
no_attrs = record { agent_tags = []; central_tags = []; agent_port = 0 }

abbrev pub prefix_agent_tag : Text
prefix_agent_tag = text "custom:tsd-agent-tag="

abbrev pub prefix_agent_port : Text
prefix_agent_port = text "custom:tsd-agent-port="

abbrev pub prefix_central_tag : Text
prefix_central_tag = text "custom:tsd-central-tag="

-- strconv.Atoi of an unsigned row of digits.
unfoldable pub digits_value : ℕ → Text → Option ℕ
digits_value acc [] = some acc
digits_value acc (c ∷ s) =
    let rest = digits_value (acc * 10 + (c - 48)) s in if leb 48 c && leb c 57 then rest else none

-- strconv.Atoi, for results above zero: an optional plus sign, and digits.
unfoldable pub atoi_positive : Text → Option ℕ
unfolding digits_value
atoi_positive [] = none
atoi_positive (c ∷ []) = digits_value 0 (c ∷ [])
atoi_positive (c ∷ d ∷ s) = digits_value 0 (if eqb c b'+' then d ∷ s else c ∷ d ∷ s)

abbrev pub port_in_range : ℕ → Bool
port_in_range p = ltb 0 p && leb p 65535

-- One round of the loop of `ParseCapMap`.
unfoldable pub read_tag : Text → Text → List Text → List Text
read_tag prefix cap tags = elim (cut_prefix prefix cap) [
  | none ↦ tags
  | some tag ↦ if tag == [] then tags else tags ++ tag ∷ []
]

unfoldable pub read_port : Text → ℕ → ℕ
read_port cap port = elim (Option.bind (cut_prefix prefix_agent_port cap) atoi_positive) [
  | none ↦ port
  | some p ↦ if port_in_range p then p else port
]

unfoldable pub read_cap : Text → NodeAttrs → NodeAttrs
read_cap cap a = record {
  agent_tags = read_tag prefix_agent_tag cap a.agent_tags;
  central_tags = read_tag prefix_central_tag cap a.central_tags;
  agent_port = read_port cap a.agent_port;
}

unfoldable pub read_caps : List Text → NodeAttrs → NodeAttrs
read_caps [] a = a
read_caps (cap ∷ caps) a = read_caps caps (read_cap cap a)

abbrev pub attrs_valid : NodeAttrs → Bool
attrs_valid a =
    (ltb 0 a.agent_port && not (is_empty a.agent_tags))
    || (ltb 0 a.agent_port && not (is_empty a.central_tags))

-- A nil map of capabilities and one that is not valid both give no attributes.
unfoldable pub parse_cap_map : Option (List Text) → Option NodeAttrs
parse_cap_map none = none
parse_cap_map (some caps) =
    let a = read_caps caps no_attrs in if attrs_valid a then some a else none

-- netip.Addr: its text and whether it is an IPv4 address.
pub record Address : Type 0 where
  pub is4 : Bool
  pub address : Text

unfoldable pub first_ip4 : List Address → Option Text
first_ip4 [] = none
first_ip4 (a ∷ as') = if a.is4 then some a.address else first_ip4 as'

unfoldable pub pick_ip : List Address → Text
unfolding first_ip4
pick_ip [] = []
pick_ip (a ∷ as') = elim (first_ip4 (a ∷ as')) [ some ip ↦ ip | none ↦ a.address ]

unfoldable pub in_set : Text → List Text → Bool
in_set t [] = false
in_set t (s ∷ set) = s == t || in_set t set

unfoldable pub matched_tag_slice : List Text → List Text → List Text
unfolding in_set
matched_tag_slice [] set = []
matched_tag_slice (t ∷ tags) set =
    let rest = matched_tag_slice tags set in if in_set t set then t ∷ rest else rest

-- ipnstate.PeerStatus: the fields that are read. No tags and nil tags give the same matches.
pub record PeerStatus : Type 0 where
  pub tags : List Text
  pub ips : List Address
  pub dns_name : Text
  pub host_name : Text
  pub online : Bool

pub record Discoverer : Type 0 where
  pub tags : List Text
  pub port : ℤ
  pub self_attrs : Option NodeAttrs

unfoldable pub update_config : List Text → ℤ → Discoverer → Discoverer
update_config tags port d = record d { tags = tags; port = port }

-- The outcome of reading this node's attributes: an error, or what `ParseCapMap` made of them.
unfoldable pub refresh_self_attrs : Option (Option NodeAttrs) → Discoverer → Discoverer
refresh_self_attrs none d = d
refresh_self_attrs (some attrs) d = record d { self_attrs = attrs }

unfoldable pub clear_self_attrs : Discoverer → Discoverer
clear_self_attrs d = record d { self_attrs = none }

-- The tag filter and the port after the override by node attributes.
abbrev pub override_tags : Option NodeAttrs → List Text → List Text
override_tags none tags = tags
override_tags (some a) tags = if is_empty a.agent_tags then tags else a.agent_tags

abbrev pub override_port : Option NodeAttrs → ℤ → ℤ
override_port none port = port
override_port (some a) port = if ltb 0 a.agent_port then pos a.agent_port else port

-- fmt.Sprintf("http://%s:%d", host, port)
unfoldable pub agent_url : Text → ℤ → Text
agent_url host port = text "http://" ++ (host ++ b':' ∷ show_int port)

abbrev pub tailscale_node_name : Text → Text → Text
tailscale_node_name dns_name host_name = if dns_name == [] then host_name else dns_name

-- What the loop appends for one peer.
unfoldable pub peer_info : List Text → ℤ → PeerStatus → Option PeerInfo
peer_info tags port p =
    let matched = matched_tag_slice p.tags tags in
    let ip = pick_ip p.ips in
    let dns_name = trim_suffix (text ".") p.dns_name in
    if is_empty matched
    then none
    else if ip == []
    then none
    else some (record {
      hostname = tailscale_node_name dns_name p.host_name;
      dns_name = dns_name;
      tailscale_ip = ip;
      tags = matched;
      agent_url = if p.online then agent_url ip port else [];
      source = PeerSource.auto;
      health = if p.online then AgentHealth.unknown else AgentHealth.offline;
      services = [];
      services_updated_at = none;
    })

unfoldable pub peer_infos : List Text → ℤ → List PeerStatus → List PeerInfo
peer_infos tags port [] = []
peer_infos tags port (p ∷ ps) = elim (peer_info tags port p) [
  | none ↦ peer_infos tags port ps
  | some info ↦ info ∷ peer_infos tags port ps
]

-- `none` is an error of the local daemon.
unfoldable pub discover : Option (List PeerStatus) → Discoverer → Option (List PeerInfo)
discover st d =
    Option.map (peer_infos (override_tags d.self_attrs d.tags) (override_port d.self_attrs d.port))
      st
