-- ===== src/Agent/Registry/Order.antt =====
-- Listings of the registry: the invariant of the table, and that no listing shows the map's order.
use mathlib.Core.Option
use tailscale_metrics_discov.Common.{
  Option-cases, ℕ, ◌≡◌, refl, sym, ap, ◌∙◌, Bool, true, false, List, [], ◌∷◌, some, arith,
  if◌then◌else◌, All, inl, inr,
}
use tailscale_metrics_discov.Common.Text.{Text, ==_iff}
use tailscale_metrics_discov.Common.Dict.{
  Dict, lookup, insert, delete, Distinct, Same, insert-Distinct, delete-Distinct,
}
use tailscale_metrics_discov.Common.Sorting.{
  find_by, DistinctBy, IsSorted, sort_by_unique, sort_by-IsSorted, find_by-sort_by,
}
use tailscale_metrics_discov.Protocol.{ServiceEntry}
use tailscale_metrics_discov.Agent.Registry.{
  Registry, Op, added, updated, removed, touched, health_updated, add, remove, update,
  touch_services, get, update_health, apply, run, copies, entry_name, sorted_entries,
  without_health,
}

-- Each entry is stored under its own name.
abbrev pub NamedBy : Dict ServiceEntry → Type 0
NamedBy = All (λ p. p.1.name ≡ p.0)

pub record IsValid (r : Registry) : Type 0 where
  pub distinct : Distinct r.entries
  pub named : NamedBy r.entries

insert-NamedBy :
    (k : Text) (e : ServiceEntry) (m : Dict ServiceEntry)
    → e.name ≡ k
    → NamedBy m
    → NamedBy (insert k e m)
unfolding insert
insert-NamedBy k e [] h n = (h, tt)
insert-NamedBy k e ((j, f) ∷ m) h n = ground (arith, insert-NamedBy k e m h n.1)

delete-NamedBy : (k : Text) (m : Dict ServiceEntry) → NamedBy m → NamedBy (delete k m)
unfolding delete
delete-NamedBy k [] n = tt
delete-NamedBy k ((j, f) ∷ m) n = ground (arith, delete-NamedBy k m n.1)

pub lookup-NamedBy :
    (k : Text) (m : Dict ServiceEntry) (e : ServiceEntry)
    → NamedBy m
    → lookup k m ≡ some e
    → e.name ≡ k
unfolding lookup
lookup-NamedBy k [] e n h = cc
lookup-NamedBy k ((j, f) ∷ m) e n h = ground (arith, ==_iff j k, lookup-NamedBy k m e n.1)

pub apply-IsValid : (now : ℕ) (o : Op) (r : Registry) → IsValid r → IsValid (apply now o r)
unfolding apply add update remove touch_services update_health
apply-IsValid now (added e) r v = ground (
  arith,
  insert-Distinct e.name e r.entries v.distinct,
  insert-NamedBy e.name e r.entries refl v.named,
)
apply-IsValid now (updated e) r v = ground (
  arith,
  insert-Distinct e.name e r.entries v.distinct,
  insert-NamedBy e.name e r.entries refl v.named,
)
apply-IsValid now (removed name) r v =
    ground (arith, delete-Distinct name r.entries v.distinct, delete-NamedBy name r.entries v.named)
apply-IsValid now touched r v = record { distinct = v.distinct; named = v.named }
apply-IsValid now (health_updated name h) r v = elim (Option-cases (lookup name r.entries)) [
  | inl e ↦ rw (e, update_health) v
  | inr (f, e) ↦
      rw (e, update_health)
        (record {
          distinct = insert-Distinct name (record f { health = some h }) r.entries v.distinct;
          named =
              insert-NamedBy name (record f { health = some h }) r.entries
                (lookup-NamedBy name r.entries f v.named e) v.named;
        })
]

-- Whatever the calls, keys stay distinct and every entry stays under its own name.
pub run-IsValid : (ops : List (ℕ × Op)) (r : Registry) → IsValid r → IsValid (run ops r)
unfolding run
run-IsValid [] r v = v
run-IsValid ((now, o) ∷ ops) r v = run-IsValid ops (apply now o r) (apply-IsValid now o r v)

-- What a listing shows of an entry.
abbrev pub shown : Bool → ServiceEntry → ServiceEntry
shown b e = if b then e else without_health e

shown-name : (b : Bool) (e : ServiceEntry) → (shown b e).name ≡ e.name
shown-name true e = refl
shown-name false e = refl

pub find_by-copies :
    (b : Bool) (k : Text) (m : Dict ServiceEntry)
    → NamedBy m
    → find_by entry_name k (copies b m) ≡ Option.map (shown b) (lookup k m)
unfolding find_by copies lookup
find_by-copies b k [] n = refl
find_by-copies b k ((j, e) ∷ m) n =
    ground (arith, shown-name b e, ==_iff j k, ==_iff e.name k, find_by-copies b k m n.1)

copies-DistinctBy :
    (b : Bool) (m : Dict ServiceEntry) → Distinct m → NamedBy m → DistinctBy entry_name (copies b m)
unfolding copies
copies-DistinctBy b [] d n = tt
copies-DistinctBy b ((j, e) ∷ m) d n =
    (rw (shown-name b e, n.0, find_by-copies b j m n.1, d.0) refl, copies-DistinctBy b m d.1 n.1)

-- A listing is sorted by name, and shows under each name exactly the entry that `get` returns.
pub sorted_entries_complete :
    (b : Bool) (r : Registry)
    → IsValid r
    → IsSorted entry_name (sorted_entries b r)
      × ((k : Text) → find_by entry_name k (sorted_entries b r) ≡ Option.map (shown b) (get k r))
unfolding sorted_entries get
sorted_entries_complete b r v =
    let d = copies-DistinctBy b r.entries v.distinct v.named in
    (
      sort_by-IsSorted entry_name (copies b r.entries) d,
      λ k.
          find_by-sort_by entry_name k (copies b r.entries) d
          ∙ find_by-copies b k r.entries v.named,
    )

-- The order in which Go iterates over the map is not seen in a listing.
pub sorted_entries-Same :
    (b : Bool) (r s : Registry)
    → IsValid r
    → IsValid s
    → Same r.entries s.entries
    → sorted_entries b r ≡ sorted_entries b s
unfolding sorted_entries
sorted_entries-Same b r s v w h =
    sort_by_unique entry_name (copies b r.entries) (copies b s.entries)
      (copies-DistinctBy b r.entries v.distinct v.named)
      (copies-DistinctBy b s.entries w.distinct w.named)
      λ k.
        find_by-copies b k r.entries v.named
        ∙ ap (Option.map (shown b)) (h k)
        ∙ sym (find_by-copies b k s.entries w.named)
