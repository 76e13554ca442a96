-- ===== src/Central/Merge/Laws.antt =====
-- What manual peers do to the discovered ones.
use tailscale_metrics_discov.Common.{
  ℕ, zero, suc, ◌≡◌, refl, ap, Bool, List, [], ◌∷◌, ◌++◌, ℤ, All, Option-cases, inl, inr,
}
use tailscale_metrics_discov.Common.Text.{Text}
use tailscale_metrics_discov.Common.Dict.{Dict, lookup}
use tailscale_metrics_discov.Protocol.{PeerInfo, PeerSource, AgentHealth}
use tailscale_metrics_discov.Central.Collector.{ManualPeer}
use tailscale_metrics_discov.Central.Merge.{
  merge_peers, merge_manuals, merge_manual, set_url, normalize_peer_address,
}

-- A manual peer that no discovered one stands for.
abbrev pub IsAdded : PeerInfo → Type 0
IsAdded p = (p.source ≡ PeerSource.manual) × (p.health ≡ AgentHealth.unknown)

-- The discovered peers in their order, each as it was but for its URL, then added ones.
abbrev pub Extends : List PeerInfo → List PeerInfo → Type 0
Extends [] rs = All IsAdded rs
Extends (p ∷ ps) [] = ⊥
Extends (p ∷ ps) (r ∷ rs) = (r ≡ record p { agent_url = r.agent_url }) × Extends ps rs

Extends-self : (ps : List PeerInfo) → Extends ps ps
Extends-self [] = tt
Extends-self (p ∷ ps) = (refl, Extends-self ps)

IsAdded-set_url :
    (i : ℕ) (url : Text) (rs : List PeerInfo) → All IsAdded rs → All IsAdded (set_url i url rs)
unfolding set_url
IsAdded-set_url i url [] h = tt
IsAdded-set_url zero url (r ∷ rs) h = h
IsAdded-set_url (suc i) url (r ∷ rs) h = (h.0, IsAdded-set_url i url rs h.1)

Extends-set_url :
    (i : ℕ) (url : Text) (ps rs : List PeerInfo) → Extends ps rs → Extends ps (set_url i url rs)
unfolding set_url
Extends-set_url i url [] rs h = IsAdded-set_url i url rs h
Extends-set_url i url (p ∷ ps) [] h = h
Extends-set_url zero url (p ∷ ps) (r ∷ rs) h =
    (ap (λ (q : PeerInfo). record q { agent_url = url }) h.0, h.1)
Extends-set_url (suc i) url (p ∷ ps) (r ∷ rs) h = (h.0, Extends-set_url i url ps rs h.1)

IsAdded-append : (rs qs : List PeerInfo) → All IsAdded rs → All IsAdded qs → All IsAdded (rs ++ qs)
IsAdded-append [] qs h k = k
IsAdded-append (r ∷ rs) qs h k = (h.0, IsAdded-append rs qs h.1 k)

Extends-append : (ps rs qs : List PeerInfo) → Extends ps rs → All IsAdded qs → Extends ps (rs ++ qs)
Extends-append [] rs qs h k = IsAdded-append rs qs h k
Extends-append (p ∷ ps) [] qs h k = absurd h
Extends-append (p ∷ ps) (r ∷ rs) qs h k = (h.0, Extends-append ps rs qs h.1 k)

merge_manual-Extends :
    (is_ip : Text → Bool) (port : ℤ) (index : Dict ℕ) (mp : ManualPeer) (ps rs : List PeerInfo)
    → Extends ps rs
    → Extends ps (merge_manual is_ip port index mp rs)
unfolding merge_manual
merge_manual-Extends is_ip port index mp ps rs h =
    elim (Option-cases (lookup (normalize_peer_address mp.address) index)) [
      | inl e ↦ rw (e, merge_manual) (Extends-append ps rs _ h ((refl, refl), tt))
      | inr (i, e) ↦ rw (e, merge_manual) (Extends-set_url i _ ps rs h)
    ]

merge_manuals-Extends :
    (is_ip : Text → Bool) (port : ℤ) (index : Dict ℕ) (m : Dict ManualPeer) (ps rs : List PeerInfo)
    → Extends ps rs
    → Extends ps (merge_manuals is_ip port index m rs)
unfolding merge_manuals
merge_manuals-Extends is_ip port index [] ps rs h = h
merge_manuals-Extends is_ip port index ((k, mp) ∷ m) ps rs h =
    merge_manuals-Extends is_ip port index m ps _ (merge_manual-Extends is_ip port index mp ps rs h)

-- Whatever manual peers there are, merging keeps every discovered peer in its place, changed in its URL
-- at most, and what it adds behind them are manual peers of unknown health.
pub merge_peers-Extends :
    (is_ip : Text → Bool) (port : ℤ) (manual : Dict ManualPeer) (auto : List PeerInfo)
    → Extends auto (merge_peers is_ip port manual auto)
unfolding merge_peers
merge_peers-Extends is_ip port manual auto =
    merge_manuals-Extends is_ip port _ manual auto auto (Extends-self auto)
