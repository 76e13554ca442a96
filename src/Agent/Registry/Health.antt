-- ===== src/Agent/Registry/Health.antt =====
-- The health listing of the registry and its modification time.
use mathlib.Core.Option
use tailscale_metrics_discov.Common.{
  ℕ, ◌≡◌, ◌⊎◌, inl, inr, refl, sym, ap, ◌∙◌, true, false, ◌<◌, List, [], ◌∷◌, Option, none, some,
  arith, Option-cases, Bool-cases,
}
use tailscale_metrics_discov.Common.Text.{Text, ==_iff, ==_self}
use tailscale_metrics_discov.Common.Dict.{
  Dict, lookup, insert, delete, Distinct, lookup-insert, lookup-delete, delete-Distinct,
  insert-Distinct,
}
use tailscale_metrics_discov.Protocol.{ServiceEntry, ServiceHealth, ServiceHealthStatus}
use tailscale_metrics_discov.Agent.Registry.{
  Registry, Op, health_updated, remove, same_status, update_health, apply, run, health_of,
  list_health, health_changed,
}
use tailscale_metrics_discov.Agent.Registry.Order.{IsValid, apply-IsValid}
use tailscale_metrics_discov.Agent.Registry.Modified.{
  IsAligned, run-IsAligned, next_modified_at-later, not_modified_since,
}

abbrev pub entry_health : Option ServiceEntry → Option ServiceHealthStatus
entry_health none = none
entry_health (some e) = e.health

pub lookup-health_of :
    (k : Text) (m : Dict ServiceEntry)
    → Distinct m
    → lookup k (health_of m) ≡ entry_health (lookup k m)
unfolding lookup health_of
lookup-health_of k [] d = refl
lookup-health_of k ((j, e) ∷ m) d = ground (arith, ==_iff j k, lookup-health_of k m d.1)

-- What `updateHealth` compares, which is all but the URL and the time of the check.
abbrev pub Visible : Type 0
Visible = ServiceHealth × ℕ × Text

abbrev pub visible : ServiceHealthStatus → Visible
visible h = (h.status, h.status_code, h.message)

-- The visible health that the endpoint shows for a service.
abbrev pub health_shown : Registry → Text → Option Visible
health_shown r k = Option.map visible (lookup k (list_health r))

same_status_lem : (a b : ServiceHealth) → same_status a b ≡ true → a ≡ b
same_status_lem ServiceHealth.unknown ServiceHealth.unknown h = refl
same_status_lem ServiceHealth.unknown ServiceHealth.healthy h = cc
same_status_lem ServiceHealth.unknown ServiceHealth.unhealthy h = cc
same_status_lem ServiceHealth.healthy ServiceHealth.unknown h = cc
same_status_lem ServiceHealth.healthy ServiceHealth.healthy h = refl
same_status_lem ServiceHealth.healthy ServiceHealth.unhealthy h = cc
same_status_lem ServiceHealth.unhealthy ServiceHealth.unknown h = cc
same_status_lem ServiceHealth.unhealthy ServiceHealth.healthy h = cc
same_status_lem ServiceHealth.unhealthy ServiceHealth.unhealthy h = refl

health_changed_lem :
    (o : Option ServiceHealthStatus) (h : ServiceHealthStatus)
    → health_changed o h ≡ false
    → Option.map visible o ≡ some (visible h)
unfolding health_changed
health_changed_lem none h p = cc
health_changed_lem (some o) h p =
    ground (arith, same_status_lem o.status h.status, ==_iff o.message h.message)

-- One health update: the time moves on, or every service shows what it showed.
abbrev HealthTracked : Registry → Registry → Type 0
HealthTracked r s =
    (r.health_modified_at < s.health_modified_at)
    ⊎ ((r.health_modified_at ≡ s.health_modified_at)
        × ((k : Text) → health_shown s k ≡ health_shown r k))

shown_after_insert :
    (k name : Text) (f : ServiceEntry) (h : ServiceHealthStatus) (m : Dict ServiceEntry)
    → lookup name m ≡ some f
    → health_changed f.health h ≡ false
    → Option.map visible (entry_health (lookup k (insert name (record f { health = some h }) m)))
      ≡ Option.map visible (entry_health (lookup k m))
shown_after_insert k name f h m e still =
    rw (lookup-insert name k (record f { health = some h }) m)
      (ground (arith, ==_iff name k, health_changed_lem f.health h still))

HealthTracked-trans : (q r s : Registry) → HealthTracked q r → HealthTracked r s → HealthTracked q s
HealthTracked-trans q r s (inl a) (inl b) = inl (omega arith)
HealthTracked-trans q r s (inl a) (inr b) = inl (omega (arith, b.0))
HealthTracked-trans q r s (inr a) (inl b) = inl (omega (arith, a.0))
HealthTracked-trans q r s (inr a) (inr b) = inr (a.0 ∙ b.0, λ k. b.1 k ∙ a.1 k)

update_health-HealthTracked :
    (now : ℕ) (name : Text) (h : ServiceHealthStatus) (r : Registry)
    → Distinct r.entries
    → HealthTracked r (update_health now name h r)
unfolding update_health list_health
update_health-HealthTracked now name h r d = elim (Option-cases (lookup name r.entries)) [
  | inl e ↦ rw (e, update_health) (inr (refl, λ k. refl))
  | inr (f, e) ↦ elim (Bool-cases (health_changed f.health h)) [
    | inl moved ↦
        rw (e, update_health) (rw moved (inl (next_modified_at-later now r.health_modified_at)))
    | inr still ↦
        rw (e, update_health)
          (rw still (
            inr (
              refl,
              λ k.
                  ap (Option.map visible) (
                    lookup-health_of k (insert name (record f { health = some h }) r.entries)
                      (insert-Distinct name (record f { health = some h }) r.entries d))
                  ∙ shown_after_insert k name f h r.entries e still
                  ∙ sym (ap (Option.map visible) (lookup-health_of k r.entries d)),
            )))
  ]
]

-- A run of health updates, as the checks report while no service comes or goes.
abbrev pub health_updates : List (ℕ × Text × ServiceHealthStatus) → List (ℕ × Op)
health_updates [] = []
health_updates ((now, name, h) ∷ us) = (now, health_updated name h) ∷ health_updates us

run-HealthTracked :
    (us : List (ℕ × Text × ServiceHealthStatus)) (r : Registry)
    → IsValid r
    → HealthTracked r (run (health_updates us) r)
unfolding run apply
run-HealthTracked [] r v = inr (refl, λ k. refl)
run-HealthTracked ((now, name, h) ∷ us) r v =
    HealthTracked-trans r (update_health now name h r)
      (run (health_updates us) (update_health now name h r))
      (update_health-HealthTracked now name h r v.distinct)
      (run-HealthTracked us (update_health now name h r)
        (apply-IsValid now (health_updated name h) r v))

-- While only checks report: if the health list counts as not modified since the old time, every
-- service shows the status, the status code and the message that it showed then.
pub health_not_modified_sound :
    (us : List (ℕ × Text × ServiceHealthStatus)) (r : Registry)
    → IsValid r
    → IsAligned r
    → not_modified_since (run (health_updates us) r).health_modified_at r.health_modified_at ≡ true
    → (k : Text) → health_shown (run (health_updates us) r) k ≡ health_shown r k
unfolding not_modified_since
health_not_modified_sound us r v a h k = elim (run-HealthTracked us r v) [
  | inl late ↦ absurd (ground (arith, run-IsAligned (health_updates us) r a))
  | inr (_, same) ↦ same k
]

-- The removal of a service takes its health out of the listing and leaves the time of the listing
-- alone, so a client that asks with the old time is told that nothing was modified.
pub remove_unseen :
    (now : ℕ) (name : Text) (r : Registry) (e : ServiceEntry) (h : ServiceHealthStatus)
    → IsValid r
    → lookup name r.entries ≡ some e
    → e.health ≡ some h
    → let s = (remove now name r).0 in
      (not_modified_since s.health_modified_at r.health_modified_at ≡ true)
      × (health_shown r name ≡ some (visible h))
      × (health_shown s name ≡ none)
unfolding remove not_modified_since list_health
remove_unseen now name r e h v p q = rw p (
  ground arith,
  ap (Option.map visible) (lookup-health_of name r.entries v.distinct) ∙ rw (p, q),
  ap (Option.map visible)
        (lookup-health_of name (delete name r.entries) (delete-Distinct name r.entries v.distinct))
      ∙ rw (lookup-delete name name r.entries, ==_self name),
)
