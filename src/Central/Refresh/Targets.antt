-- ===== src/Central/Refresh/Targets.antt =====
-- The targets of a refresh are those of the peers that it reports as healthy.
use mathlib.Core.List.{Perm, append_assoc, perm_append_comm}
use mathlib.Core.List.Perm
use tailscale_metrics_discov.Common.{
  ℕ, zero, suc, ◌≡◌, ◌≢◌, refl, sym, ap, ◌∙◌, subst, true, false, List, [], ◌∷◌, ◌++◌, some, All,
  get_elem?, Option-cases, Bool-cases, inl, inr, some_eq, if◌then◌else◌,
}
use tailscale_metrics_discov.Common.Dict.{lookup}
use tailscale_metrics_discov.Protocol.{SdTarget, PeerInfo}
use tailscale_metrics_discov.Central.Discovery.{Discoverer, PeerStatus, discover}
use tailscale_metrics_discov.Central.Collector.{Collector}
use tailscale_metrics_discov.Central.Refresh.Initial.{
  NotOk, NoneOk, NoneOk-NotOk, restored-health, known_peers-NoneOk,
}
use tailscale_metrics_discov.Central.Refresh.Arrival.{DistinctIdx, arrival-DistinctIdx}
use tailscale_metrics_discov.Central.Refresh.{
  PeerResult, World, Applied, is_ok, restored, set_peer, targets_of, apply_to, apply_result,
  apply_results, query_peers, known_peers, started, finish, refreshed, refresh,
}

-- The targets of the services of the healthy peers of a list.
abbrev pub ok_targets : List PeerInfo → List SdTarget
ok_targets [] = []
ok_targets (p ∷ ps) = (if is_ok p.health then targets_of p.services else []) ++ ok_targets ps

-- A healthy peer in the place of one that was not adds its targets.
set_peer-ok :
    (i : ℕ) (p q : PeerInfo) (ps : List PeerInfo)
    → get_elem? ps i ≡ some p
    → is_ok p.health ≡ false
    → is_ok q.health ≡ true
    → Perm (ok_targets ps ++ targets_of q.services) (ok_targets (set_peer i q ps))
unfolding set_peer
set_peer-ok i p q [] e np ok = cc
set_peer-ok zero p q (x ∷ ps) e np ok =
    let same : is_ok x.health ≡ false = ap (λ (y : PeerInfo). is_ok y.health) (some_eq e) ∙ np in
    rw (same, ok) (perm_append_comm (ok_targets ps) (targets_of q.services))
set_peer-ok (suc i) p q (x ∷ ps) e np ok =
    rw append_assoc (Perm.append_left _ (set_peer-ok i p q ps e np ok))

set_peer-not_ok :
    (i : ℕ) (p q : PeerInfo) (ps : List PeerInfo)
    → get_elem? ps i ≡ some p
    → is_ok p.health ≡ false
    → is_ok q.health ≡ false
    → ok_targets (set_peer i q ps) ≡ ok_targets ps
unfolding set_peer
set_peer-not_ok i p q [] e np nq = cc
set_peer-not_ok zero p q (x ∷ ps) e np nq =
    let same : is_ok x.health ≡ false = ap (λ (y : PeerInfo). is_ok y.health) (some_eq e) ∙ np in
    rw (same, nq) refl
set_peer-not_ok (suc i) p q (x ∷ ps) e np nq = rw (set_peer-not_ok i p q ps e np nq)

get_elem?-set_peer_ne :
    (i j : ℕ) (q : PeerInfo) (ps : List PeerInfo)
    → i ≢ j
    → get_elem? (set_peer i q ps) j ≡ get_elem? ps j
unfolding set_peer
get_elem?-set_peer_ne i j q [] h = refl
get_elem?-set_peer_ne zero zero q (x ∷ ps) h = absurd (h refl)
get_elem?-set_peer_ne zero (suc j) q (x ∷ ps) h = refl
get_elem?-set_peer_ne (suc i) zero q (x ∷ ps) h = refl
get_elem?-set_peer_ne (suc i) (suc j) q (x ∷ ps) h =
    get_elem?-set_peer_ne i j q ps (λ e. h (ap suc e))

abbrev Waiting : List PeerInfo → PeerResult → Type 0
Waiting ps r = NotOk (get_elem? ps r.idx)

abbrev Balanced : Applied → Type 0
Balanced a = Perm a.targets (ok_targets a.peers)

apply_to-Balanced :
    (now : ℕ) (r : PeerResult) (p : PeerInfo) (a : Applied)
    → get_elem? a.peers r.idx ≡ some p
    → is_ok p.health ≡ false
    → Balanced a
    → Balanced (apply_to now r p a)
unfolding apply_to
apply_to-Balanced now r p a e np b =
    let asked : PeerInfo = record p { health = r.health } in
    let q : PeerInfo = restored now (lookup p.tailscale_ip a.cache) asked in
    let not_q : is_ok q.health ≡ is_ok r.health =
      ap is_ok (restored-health now (lookup p.tailscale_ip a.cache) asked) in
    elim (Bool-cases (is_ok r.health)) [
      | inl ok ↦ rw ok (Perm.trans (Perm.append_right _ b) (set_peer-ok r.idx p _ a.peers e np ok))
      | inr nr ↦ rw nr (rw (set_peer-not_ok r.idx p q a.peers e np (not_q ∙ nr)) b)
    ]

apply_to-Waiting :
    (now : ℕ) (r : PeerResult) (p : PeerInfo) (a : Applied) (rs : List PeerResult)
    → All (λ s. r.idx ≢ s.idx) rs
    → All (Waiting a.peers) rs
    → All (Waiting (apply_to now r p a).peers) rs
unfolding apply_to
apply_to-Waiting now r p a [] d h = tt
apply_to-Waiting now r p a (s ∷ rs) d h = (
  elim (Bool-cases (is_ok r.health)) [
    | inl ok ↦ rw ok (subst NotOk (sym (get_elem?-set_peer_ne r.idx s.idx _ a.peers d.0)) h.0)
    | inr nr ↦ rw nr (subst NotOk (sym (get_elem?-set_peer_ne r.idx s.idx _ a.peers d.0)) h.0)
  ],
  apply_to-Waiting now r p a rs d.1 h.1,
)

apply_result-Balanced :
    (now : ℕ) (r : PeerResult) (rs : List PeerResult) (a : Applied)
    → All (λ s. r.idx ≢ s.idx) rs
    → All (Waiting a.peers) (r ∷ rs)
    → Balanced a
    → Balanced (apply_result now r a) × All (Waiting (apply_result now r a).peers) rs
unfolding apply_result
apply_result-Balanced now r rs a d h b = elim (Option-cases (get_elem? a.peers r.idx)) [
  | inl e ↦ rw (e, apply_result) (b, h.1)
  | inr (p, e) ↦
      rw (e, apply_result)
        (apply_to-Balanced now r p a e (subst NotOk e h.0) b, apply_to-Waiting now r p a rs d h.1)
]

apply_results-Balanced :
    (now : ℕ) (rs : List PeerResult) (a : Applied)
    → DistinctIdx rs
    → All (Waiting a.peers) rs
    → Balanced a
    → Balanced (apply_results now rs a)
unfolding apply_results
apply_results-Balanced now [] a d h b = b
apply_results-Balanced now (r ∷ rs) a d h b =
    let (balanced, waiting) = apply_result-Balanced now r rs a d.0 h b in
    apply_results-Balanced now rs (apply_result now r a) d.1 waiting balanced

NoneOk-ok_targets : (ps : List PeerInfo) → NoneOk ps → ok_targets ps ≡ []
NoneOk-ok_targets [] h = refl
NoneOk-ok_targets (p ∷ ps) h = rw (h.0, NoneOk-ok_targets ps h.1)

NoneOk-Waiting : (ps : List PeerInfo) (rs : List PeerResult) → NoneOk ps → All (Waiting ps) rs
NoneOk-Waiting ps [] h = tt
NoneOk-Waiting ps (r ∷ rs) h = (NoneOk-NotOk r.idx ps h, NoneOk-Waiting ps rs h)

refreshed-targets :
    (w : World) (d : Discoverer) (c : Collector) (st : List PeerStatus) (auto : List PeerInfo)
    → discover (some st) d ≡ some auto
    → ((rs : List PeerResult) → Perm rs (w.arrival rs))
    → Perm (refreshed (some auto) w d c).targets (ok_targets (refreshed (some auto) w d c).peers)
unfolding refreshed finish
refreshed-targets w d c st auto e arrival =
    let up : Collector = record c { ts_down = false } in
    let ps = known_peers w d auto up in
    let none_ok = known_peers-NoneOk w d up st auto e in
    let asked = query_peers w.agents 0 ps up in
    apply_results-Balanced w.now (w.arrival asked.1) (started ps asked.0)
      (arrival-DistinctIdx w.agents ps up _ (arrival asked.1)) (NoneOk-Waiting ps _ none_ok)
      (rw (NoneOk-ok_targets ps none_ok) (Perm.refl []))

-- After a refresh that reaches the local daemon, whatever the agents answer and in whatever order the
-- results arrive, the targets are, up to their order, those of the services of the peers that the
-- refresh reports as healthy.
pub refresh-targets :
    (w : World) (d : Discoverer) (c : Collector) (st : List PeerStatus)
    → w.status ≡ some st
    → ((rs : List PeerResult) → Perm rs (w.arrival rs))
    → Perm (refresh w d c).targets (ok_targets (refresh w d c).peers)
unfolding refresh discover
refresh-targets w d c st up arrival =
    subst
      (λ s.
        Perm (refreshed (discover s d) w d c).targets
          (ok_targets (refreshed (discover s d) w d c).peers))
      (sym up) (refreshed-targets w d c st _ refl arrival)
