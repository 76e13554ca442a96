-- ===== src/Agent/Registry/Modified.antt =====
-- The modification times of the registry, and what an unchanged time says of a listing.
use tailscale_metrics_discov.Common.{
  ℕ, ◌<◌, ◌≡◌, ◌⊎◌, inl, inr, refl, ap, Bool, true, false, List, [], ◌∷◌, Option, none, some, arith,
  leb, Option-cases,
}
use tailscale_metrics_discov.Common.Text.{Text, ==_iff}
use tailscale_metrics_discov.Common.Dict.{Dict, lookup, insert}
use tailscale_metrics_discov.Common.Sorting.{sort_by}
use tailscale_metrics_discov.Protocol.{ServiceEntry, ServiceHealthStatus}
use tailscale_metrics_discov.Agent.Error.{Error}
use tailscale_metrics_discov.Agent.Registry.{
  Registry, Op, added, updated, removed, touched, health_updated, add, remove, update,
  touch_services, update_health, apply, run, copies, entry_name, sorted_entries, truncate,
  next_modified_at, list_without_health,
}

-- HTTP dates have whole seconds: the invariant that makes the comparison exact.
abbrev pub IsAligned : Registry → Type 0
IsAligned r =
    (truncate r.svc_modified_at ≡ r.svc_modified_at)
    × (truncate r.health_modified_at ≡ r.health_modified_at)

pub next_modified_at-later : (now prev : ℕ) → prev < next_modified_at now prev
unfolding next_modified_at
next_modified_at-later now prev = ground arith

next_modified_at-aligned :
    (now prev : ℕ)
    → truncate prev ≡ prev
    → truncate (next_modified_at now prev) ≡ next_modified_at now prev
unfolding next_modified_at
next_modified_at-aligned now prev h = ground arith

-- A change of health alone is not seen by the listing without health.
copies-insert_health :
    (name : Text) (e : ServiceEntry) (h : Option ServiceHealthStatus) (m : Dict ServiceEntry)
    → lookup name m ≡ some e
    → copies false (insert name (record e { health = h }) m) ≡ copies false m
unfolding copies insert lookup
copies-insert_health name e h [] p = cc
copies-insert_health name e h ((j, f) ∷ m) p =
    ground (arith, ==_iff j name, copies-insert_health name e h m)

-- What one call does: the time moves on, or time and listing stay.
abbrev pub Tracked : Registry → Registry → Type 0
Tracked r s =
    (r.svc_modified_at < s.svc_modified_at)
    ⊎ ((r.svc_modified_at ≡ s.svc_modified_at) × (list_without_health s ≡ list_without_health r))

pub apply-Tracked : (now : ℕ) (o : Op) (r : Registry) → Tracked r (apply now o r)
unfolding apply add update remove touch_services update_health sorted_entries
apply-Tracked now (added e) r = ground (arith, next_modified_at-later now r.svc_modified_at)
apply-Tracked now (updated e) r = ground (arith, next_modified_at-later now r.svc_modified_at)
apply-Tracked now (removed name) r = ground (arith, next_modified_at-later now r.svc_modified_at)
apply-Tracked now touched r = inl (next_modified_at-later now r.svc_modified_at)
apply-Tracked now (health_updated name h) r = elim (Option-cases (lookup name r.entries)) [
  | inl e ↦ rw (e, update_health) (inr (refl, refl))
  | inr (f, e) ↦
      rw (e, update_health, sorted_entries)
        (inr (refl, ap (sort_by entry_name) (copies-insert_health name f (some h) r.entries e)))
]

pub apply-IsAligned : (now : ℕ) (o : Op) (r : Registry) → IsAligned r → IsAligned (apply now o r)
unfolding apply add update remove touch_services update_health
apply-IsAligned now (added e) r a =
    ground (arith, next_modified_at-aligned now r.svc_modified_at a.0)
apply-IsAligned now (updated e) r a =
    ground (arith, next_modified_at-aligned now r.svc_modified_at a.0)
apply-IsAligned now (removed name) r a =
    ground (arith, next_modified_at-aligned now r.svc_modified_at a.0)
apply-IsAligned now touched r a = (next_modified_at-aligned now r.svc_modified_at a.0, a.1)
apply-IsAligned now (health_updated name h) r a =
    ground (arith, next_modified_at-aligned now r.health_modified_at a.1)

-- Both times stay in whole seconds, as HTTP dates are, through any sequence of calls at any times.
pub run-IsAligned : (ops : List (ℕ × Op)) (r : Registry) → IsAligned r → IsAligned (run ops r)
unfolding run
run-IsAligned [] r a = a
run-IsAligned ((now, o) ∷ ops) r a = run-IsAligned ops (apply now o r) (apply-IsAligned now o r a)

run-Tracked : (ops : List (ℕ × Op)) (r : Registry) → Tracked r (run ops r)
unfolding run
run-Tracked [] r = inr (refl, refl)
run-Tracked ((now, o) ∷ ops) r =
    ground (arith, apply-Tracked now o r, run-Tracked ops (apply now o r))

-- The comparison of `checkNotModified`, once the header is parsed.
unfoldable pub not_modified_since : ℕ → ℕ → Bool
not_modified_since mod_time t = leb (truncate mod_time) (truncate t)

-- From any registry with times in whole seconds, and whatever calls follow: if the service list
-- counts as not modified since the old time, then it lists the same entries as before.
pub svc_not_modified_sound :
    (ops : List (ℕ × Op)) (r : Registry)
    → IsAligned r
    → not_modified_since (run ops r).svc_modified_at r.svc_modified_at ≡ true
    → list_without_health (run ops r) ≡ list_without_health r
unfolding not_modified_since
svc_not_modified_sound ops r a h = ground (arith, run-Tracked ops r, run-IsAligned ops r a)

-- A call failed and left the registry alone, or a client's copy of the list is out of date after it.
abbrev pub Bumped : Registry → Registry × Option Error → Type 0
Bumped r (s, none) = not_modified_since s.svc_modified_at r.svc_modified_at ≡ false
Bumped r (s, some e) = s ≡ r

-- Adding, updating or removing a service either fails and leaves the registry as it was, or
-- succeeds and makes the list count as modified since the time before the call.
pub structural-Bumped :
    (now : ℕ) (e : ServiceEntry) (name : Text) (r : Registry)
    → IsAligned r
    → Bumped r (add now e r) × Bumped r (update now e r) × Bumped r (remove now name r)
unfolding add update remove not_modified_since
structural-Bumped now e name r a =
    let aligned = next_modified_at-aligned now r.svc_modified_at a.0 in
    let later = next_modified_at-later now r.svc_modified_at in
    (ground (arith, aligned, later), ground (arith, aligned, later), ground (arith, aligned, later))
