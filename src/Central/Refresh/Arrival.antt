-- ===== src/Central/Refresh/Arrival.antt =====
-- The results of the queries: their indices, and the order of their arrival.
use mathlib.Core.List.{
  Perm, Mem, Nodup, Nodup-cons, Nodup-nil, mem-cons, mem-cons_self, mem-cons_of_mem, not-mem-nil,
}
use mathlib.Core.List.Perm
use mathlib.Core.Logic.Or
use mathlib.Core.HLevel.{⊥_prop}
use tailscale_metrics_discov.Common.{
  ℕ, suc, ◌<◌, ◌≤◌, ◌≢◌, subst, List, [], ◌∷◌, map, arith, All, Bool-cases, inl, inr,
}
use tailscale_metrics_discov.Protocol.{PeerInfo}
use tailscale_metrics_discov.Central.Collector.{Collector, Agent}
use tailscale_metrics_discov.Central.Refresh.{PeerResult, is_offline, query_peers, query_peer}

-- The indices of the results are distinct.
abbrev pub DistinctIdx : List PeerResult → Type 0
DistinctIdx [] = Unit
DistinctIdx (r ∷ rs) = All (λ s. r.idx ≢ s.idx) rs × DistinctIdx rs

abbrev result_idx : PeerResult → ℕ
result_idx r = r.idx

ne_of_not-mem :
    (i : ℕ) (rs : List PeerResult) → ¬ Mem i (map result_idx rs) → All (λ s. i ≢ s.idx) rs
ne_of_not-mem i [] h = tt
ne_of_not-mem i (r ∷ rs) h = (
  λ e. h (subst (λ j. Mem i (j ∷ map result_idx rs)) e mem-cons_self),
  ne_of_not-mem i rs (λ m. h (mem-cons_of_mem _ m)),
)

Nodup-DistinctIdx : (rs : List PeerResult) → Nodup (map result_idx rs) → DistinctIdx rs
Nodup-DistinctIdx [] h = tt
Nodup-DistinctIdx (r ∷ rs) h =
    (ne_of_not-mem r.idx rs (Nodup-cons.0 h).0, Nodup-DistinctIdx rs (Nodup-cons.0 h).1)

-- All indices are at least `i`.
abbrev From : ℕ → List PeerResult → Type 0
From i = All (λ r. i ≤ r.idx)

From-later : (i j : ℕ) (rs : List PeerResult) → i ≤ j → From j rs → From i rs
From-later i j [] h f = tt
From-later i j (r ∷ rs) h f = (omega arith, From-later i j rs h f.1)

not-mem_of_From : (i j : ℕ) (rs : List PeerResult) → i < j → From j rs → ¬ Mem i (map result_idx rs)
not-mem_of_From i j [] h f m = not-mem-nil m
not-mem_of_From i j (r ∷ rs) h f m =
    Or.elim ⊥_prop (mem-cons.0 m) (λ e. omega arith) (not-mem_of_From i j rs h f.1)

query_peers-Nodup :
    (agents : PeerInfo → Agent) (i : ℕ) (ps : List PeerInfo) (c : Collector)
    → From i (query_peers agents i ps c).1 × Nodup (map result_idx (query_peers agents i ps c).1)
unfolding query_peers query_peer
query_peers-Nodup agents i [] c = (tt, Nodup-nil)
query_peers-Nodup agents i (p ∷ ps) c = elim (Bool-cases (is_offline p.health)) [
  | inl e ↦
      let later = query_peers-Nodup agents (suc i) ps c in
      rw e (From-later i (suc i) _ omega arith later.0, later.1)
  | inr e ↦
      let later = query_peers-Nodup agents (suc i) ps (query_peer (agents p) i p c).0 in
      rw e (
        (omega arith, From-later i (suc i) _ omega arith later.0),
        Nodup-cons.1 (not-mem_of_From i _ _ omega arith later.0, later.1),
      )
]

-- However the results arrive, no two are for one peer.
pub arrival-DistinctIdx :
    (agents : PeerInfo → Agent) (ps : List PeerInfo) (c : Collector) (rs : List PeerResult)
    → Perm (query_peers agents 0 ps c).1 rs
    → DistinctIdx rs
arrival-DistinctIdx agents ps c rs h =
    Nodup-DistinctIdx rs (Perm.nodup (Perm.map result_idx h) (query_peers-Nodup agents 0 ps c).1)
