-- ===== src/Central/Merge.antt =====
-- `mergePeers` of internal/central/collector.go and its helpers. `net.ParseIP` is a parameter.
pub mod Laws
use tailscale_metrics_discov.Common.{
  ℕ, zero, suc, ◌+◌, ◌≡◌, Bool, true, false, not, List, [], ◌∷◌, ◌++◌, Option, none, some, ℤ, pos,
  negsuc, length, get_elem?, if◌then◌else◌,
}
use tailscale_metrics_discov.Common.Text.{
  Text, text, ◌==◌, to_lower, trim_space, trim_suffix, cut_at,
}
use tailscale_metrics_discov.Common.Dict.{Dict, lookup, insert}
use tailscale_metrics_discov.Protocol.{PeerInfo, PeerSource, AgentHealth}
use tailscale_metrics_discov.Central.Discovery.{agent_url, in_set}
use tailscale_metrics_discov.Central.Collector.{ManualPeer}

unfoldable pub normalize_peer_address : Text → Text
normalize_peer_address address = to_lower (trim_suffix (text ".") (trim_space address))

abbrev pub before_dot : Text → Text
before_dot s = elim (cut_at b'.' s) [ none ↦ s | some p ↦ p.0 ]

-- Keys that are neither empty nor seen before.
unfoldable pub distinct_keys : List Text → List Text → List Text
distinct_keys seen [] = []
distinct_keys seen (c ∷ cs) =
    let key = normalize_peer_address c in
    let rest = distinct_keys seen cs in
    let more = distinct_keys (key ∷ seen) cs in
    if key == [] then rest else if in_set key seen then rest else key ∷ more

-- result[i].AgentURL = url; the index comes from the list itself.
unfoldable pub set_url : ℕ → Text → List PeerInfo → List PeerInfo
set_url i url [] = []
set_url zero url (p ∷ ps) = record p { agent_url = url } ∷ ps
set_url (suc i) url (p ∷ ps) = p ∷ set_url i url ps

abbrev pub is_zero : ℤ → Bool
is_zero (pos zero) = true
is_zero (pos (suc n)) = false
is_zero (negsuc n) = false

module _ (is_ip : Text → Bool) where
  unfoldable pub first_dns_label : Text → Text
  first_dns_label name =
      let normalized = normalize_peer_address name in
      if normalized == [] then [] else if is_ip normalized then [] else before_dot normalized

  unfoldable pub peer_match_keys : PeerInfo → List Text
  peer_match_keys p = distinct_keys [] (
      p.tailscale_ip
      ∷ p.dns_name
      ∷ p.hostname
      ∷ first_dns_label p.dns_name
      ∷ first_dns_label p.hostname
      ∷ [])

  unfoldable pub index_keys : ℕ → List Text → Dict ℕ → Dict ℕ
  index_keys i [] m = m
  index_keys i (k ∷ ks) m = index_keys i ks (insert k i m)

  unfoldable pub auto_index : ℕ → List PeerInfo → Dict ℕ → Dict ℕ
  auto_index i [] m = m
  auto_index i (p ∷ ps) m = auto_index (suc i) ps (index_keys i (peer_match_keys p) m)

  -- One round of the loop over the manual peers.
  unfoldable pub merge_manual : ℤ → Dict ℕ → ManualPeer → List PeerInfo → List PeerInfo
  merge_manual default_port index mp result =
      let url = agent_url mp.address (if is_zero mp.port then default_port else mp.port) in
      elim (lookup (normalize_peer_address mp.address) index) [
        | some i ↦ set_url i url result
        | none ↦
            result
            ++ record {
              hostname = if mp.name == [] then mp.address else mp.name;
              dns_name = [];
              tailscale_ip = mp.address;
              tags = [];
              agent_url = url;
              source = PeerSource.manual;
              health = AgentHealth.unknown;
              services = [];
              services_updated_at = none;
            }
              ∷ []
      ]

  unfoldable pub merge_manuals : ℤ → Dict ℕ → Dict ManualPeer → List PeerInfo → List PeerInfo
  merge_manuals default_port index [] result = result
  merge_manuals default_port index ((k, mp) ∷ m) result =
      merge_manuals default_port index m (merge_manual default_port index mp result)

  unfoldable pub merge_peers : ℤ → Dict ManualPeer → List PeerInfo → List PeerInfo
  merge_peers default_port manual auto =
      merge_manuals default_port (auto_index 0 auto []) manual auto
