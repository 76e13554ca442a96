-- ===== src/Central/Refresh/Initial.antt =====
-- The peers of a refresh before any answer: none counts as healthy.
use tailscale_metrics_discov.Common.{
  ℕ, zero, suc, ◌≡◌, refl, subst, Bool, false, List, [], ◌∷◌, ◌++◌, Option, none, some, arith, ℤ,
  All, get_elem?, Option-cases, inl, inr, some_eq,
}
use tailscale_metrics_discov.Common.Text.{Text}
use tailscale_metrics_discov.Common.Dict.{Dict, lookup}
use tailscale_metrics_discov.Protocol.{PeerInfo}
use tailscale_metrics_discov.Central.Discovery.{
  Discoverer, PeerStatus, discover, peer_info, peer_infos,
}
use tailscale_metrics_discov.Central.Collector.{Collector, CachedPeerServices, ManualPeer}
use tailscale_metrics_discov.Central.Merge.{
  merge_peers, merge_manuals, merge_manual, set_url, normalize_peer_address,
}
use tailscale_metrics_discov.Central.Refresh.{World, is_ok, restored, restore_offline, known_peers}

-- Not yet reported as healthy.
abbrev pub NotOk : Option PeerInfo → Type 0
NotOk none = Unit
NotOk (some p) = is_ok p.health ≡ false

pub restored-health :
    (now : ℕ) (o : Option CachedPeerServices) (p : PeerInfo) → (restored now o p).health ≡ p.health
restored-health now none p = refl
restored-health now (some c) p = ground arith

-- Before any answer no peer is healthy.
abbrev pub NoneOk : List PeerInfo → Type 0
NoneOk = All (λ p. is_ok p.health ≡ false)

pub NoneOk-NotOk : (i : ℕ) (ps : List PeerInfo) → NoneOk ps → NotOk (get_elem? ps i)
NoneOk-NotOk i [] h = tt
NoneOk-NotOk zero (p ∷ ps) h = h.0
NoneOk-NotOk (suc i) (p ∷ ps) h = NoneOk-NotOk i ps h.1

peer_info-NotOk : (tags : List Text) (port : ℤ) (p : PeerStatus) → NotOk (peer_info tags port p)
unfolding peer_info
peer_info-NotOk tags port p = ground arith

peer_infos-NoneOk :
    (tags : List Text) (port : ℤ) (ps : List PeerStatus) → NoneOk (peer_infos tags port ps)
unfolding peer_infos
peer_infos-NoneOk tags port [] = tt
peer_infos-NoneOk tags port (p ∷ ps) = elim (Option-cases (peer_info tags port p)) [
  | inl e ↦ rw (e, peer_infos) (peer_infos-NoneOk tags port ps)
  | inr (i, e) ↦
      rw (e, peer_infos)
        (subst NotOk e (peer_info-NotOk tags port p), peer_infos-NoneOk tags port ps)
]

set_url-NoneOk : (i : ℕ) (url : Text) (ps : List PeerInfo) → NoneOk ps → NoneOk (set_url i url ps)
unfolding set_url
set_url-NoneOk i url [] h = tt
set_url-NoneOk zero url (p ∷ ps) h = h
set_url-NoneOk (suc i) url (p ∷ ps) h = (h.0, set_url-NoneOk i url ps h.1)

NoneOk-append : (ps qs : List PeerInfo) → NoneOk ps → NoneOk qs → NoneOk (ps ++ qs)
NoneOk-append [] qs h k = k
NoneOk-append (p ∷ ps) qs h k = (h.0, NoneOk-append ps qs h.1 k)

merge_manual-NoneOk :
    (is_ip : Text → Bool) (port : ℤ) (index : Dict ℕ) (mp : ManualPeer) (ps : List PeerInfo)
    → NoneOk ps
    → NoneOk (merge_manual is_ip port index mp ps)
unfolding merge_manual
merge_manual-NoneOk is_ip port index mp ps h =
    elim (Option-cases (lookup (normalize_peer_address mp.address) index)) [
      | inl e ↦ rw (e, merge_manual) (NoneOk-append ps _ h (refl, tt))
      | inr (i, e) ↦ rw (e, merge_manual) (set_url-NoneOk i _ ps h)
    ]

merge_manuals-NoneOk :
    (is_ip : Text → Bool) (port : ℤ) (index : Dict ℕ) (m : Dict ManualPeer) (ps : List PeerInfo)
    → NoneOk ps
    → NoneOk (merge_manuals is_ip port index m ps)
unfolding merge_manuals
merge_manuals-NoneOk is_ip port index [] ps h = h
merge_manuals-NoneOk is_ip port index ((k, mp) ∷ m) ps h =
    merge_manuals-NoneOk is_ip port index m _ (merge_manual-NoneOk is_ip port index mp ps h)

restore_offline-NoneOk :
    (now : ℕ) (cache : Dict CachedPeerServices) (ps : List PeerInfo)
    → NoneOk ps
    → NoneOk (restore_offline now cache ps)
unfolding restore_offline
restore_offline-NoneOk now cache [] h = tt
restore_offline-NoneOk now cache (p ∷ ps) h = (
  ground (arith, restored-health now (lookup p.tailscale_ip cache) p, h.0),
  restore_offline-NoneOk now cache ps h.1,
)

-- No peer that a refresh knows of is healthy before it has answered.
pub known_peers-NoneOk :
    (w : World) (d : Discoverer) (c : Collector) (st : List PeerStatus) (auto : List PeerInfo)
    → discover (some st) d ≡ some auto
    → NoneOk (known_peers w d auto c)
unfolding known_peers merge_peers discover
known_peers-NoneOk w d c st auto e = restore_offline-NoneOk w.now c.service_cache _ (
    merge_manuals-NoneOk w.is_ip d.port _ c.manual_peers auto
      (subst NoneOk (some_eq e) (peer_infos-NoneOk _ _ st)))
