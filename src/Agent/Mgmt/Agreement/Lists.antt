-- ===== src/Agent/Mgmt/Agreement/Lists.antt =====
-- Names in lists that grow at the end, and in lists that a name is filtered out of.
use tailscale_metrics_discov.Common.{
  ◌≡◌, refl, not, List, [], ◌∷◌, ◌++◌, Option, none, some, arith, keep_if, if◌then◌else◌,
}
use tailscale_metrics_discov.Common.Text.{Text, ◌==◌, ==_iff}
use tailscale_metrics_discov.Common.Sorting.{find_by, DistinctBy}

-- The first of two results.
abbrev pub or_other : {A : Type 0} → Option A → Option A → Option A
or_other none o = o
or_other (some a) o = some a

module _ {A : Type 0} (key : A → Text) where
  pub find_by-snoc :
      (k : Text) (a : A) (xs : List A)
      → find_by key k (xs ++ a ∷ [])
        ≡ or_other (find_by key k xs) (if key a == k then some a else none)
  unfolding find_by
  find_by-snoc k a [] = refl
  find_by-snoc k a (x ∷ xs) = ground (arith, find_by-snoc k a xs)

  pub DistinctBy-snoc :
      (a : A) (xs : List A)
      → DistinctBy key xs
      → find_by key (key a) xs ≡ none
      → DistinctBy key (xs ++ a ∷ [])
  unfolding find_by
  DistinctBy-snoc a [] d f = (refl, tt)
  DistinctBy-snoc a (x ∷ xs) d f = (
    ground
        (arith, f, d.0, find_by-snoc (key x) a xs, ==_iff (key x) (key a), ==_iff (key a) (key x)),
    DistinctBy-snoc a xs d.1 (ground (arith, f)),
  )

  -- The elements under other names.
  abbrev pub without : Text → List A → List A
  without name = keep_if (λ x. not (key x == name))

  pub find_by-without :
      (name k : Text) (xs : List A)
      → find_by key k (without name xs) ≡ (if name == k then none else find_by key k xs)
  unfolding find_by keep_if
  find_by-without name k [] = ground arith
  find_by-without name k (x ∷ xs) =
      ground
        (arith, find_by-without name k xs, ==_iff (key x) name, ==_iff (key x) k, ==_iff name k)

  pub DistinctBy-without :
      (name : Text) (xs : List A) → DistinctBy key xs → DistinctBy key (without name xs)
  unfolding keep_if
  DistinctBy-without name [] d = tt
  DistinctBy-without name (x ∷ xs) d =
      ground (arith, d.0, DistinctBy-without name xs d.1, find_by-without name (key x) xs)
