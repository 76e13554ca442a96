-- ===== src/Common/Sorting.antt =====
-- `slices.SortFunc` and `sort.Strings` by a text key, with what makes the result unique.
use mathlib.Core.Path.{◌≡◌, refl, ap₂, sym, ◌∙◌}
use mathlib.Core.Bool.{true}
use mathlib.Core.Option.{Option, none, some}
use mathlib.Core.List.{List, [], ◌∷◌}
use native.Mathlib.Omega.{arith}
use tailscale_metrics_discov.Common.Tests.{if◌then◌else◌}
use tailscale_metrics_discov.Common.Text.{
  Text, ◌==◌, ==_iff, ==_self, text_lt, text_lt_irrefl, text_lt_trans, text_lt-connected,
}

module _ {ℓ} {A : Type ℓ} (key : A → Text) where
  unfoldable pub insert_sorted : A → List A → List A
  insert_sorted a [] = a ∷ []
  insert_sorted a (x ∷ xs) = if text_lt (key x) (key a) then x ∷ insert_sorted a xs else a ∷ x ∷ xs

  unfoldable pub sort_by : List A → List A
  unfolding insert_sorted
  sort_by [] = []
  sort_by (x ∷ xs) = insert_sorted x (sort_by xs)

  -- The first element with a key.
  unfoldable pub find_by : Text → List A → Option A
  find_by k [] = none
  find_by k (x ∷ xs) = if key x == k then some x else find_by k xs

  abbrev pub DistinctBy : List A → Type ℓ
  DistinctBy [] = Unit
  DistinctBy (x ∷ xs) = (find_by (key x) xs ≡ none) × DistinctBy xs

  -- Every key is above `k`.
  abbrev pub Above : Text → List A → Type 0
  Above k [] = Unit
  Above k (x ∷ xs) = (text_lt k (key x) ≡ true) × Above k xs

  abbrev pub IsSorted : List A → Type 0
  IsSorted [] = Unit
  IsSorted (x ∷ xs) = Above (key x) xs × IsSorted xs

  pub find_by-Above : (k : Text) (xs : List A) → Above k xs → find_by k xs ≡ none
  unfolding find_by
  find_by-Above k [] h = refl
  find_by-Above k (x ∷ xs) h =
      ground (arith, ==_iff (key x) k, text_lt_irrefl k, find_by-Above k xs h.1)

  Above-trans : (j k : Text) (xs : List A) → text_lt j k ≡ true → Above k xs → Above j xs
  Above-trans j k [] h a = tt
  Above-trans j k (x ∷ xs) h a = (text_lt_trans j k (key x) h a.0, Above-trans j k xs h a.1)

  pub find_by-insert_sorted :
      (k : Text) (a : A) (xs : List A)
      → find_by (key a) xs ≡ none
      → find_by k (insert_sorted a xs) ≡ (if key a == k then some a else find_by k xs)
  unfolding find_by insert_sorted
  find_by-insert_sorted k a [] h = refl
  find_by-insert_sorted k a (x ∷ xs) h = ground (
    arith,
    ==_iff (key x) k,
    ==_iff (key a) k,
    ==_iff (key x) (key a),
    find_by-insert_sorted k a xs,
  )

  insert_sorted-Above :
      (k : Text) (a : A) (xs : List A)
      → text_lt k (key a) ≡ true
      → Above k xs
      → Above k (insert_sorted a xs)
  unfolding insert_sorted
  insert_sorted-Above k a [] h b = (h, tt)
  insert_sorted-Above k a (x ∷ xs) h b = ground (arith, insert_sorted-Above k a xs h b.1)

  insert_sorted-IsSorted :
      (a : A) (xs : List A)
      → find_by (key a) xs ≡ none
      → IsSorted xs
      → IsSorted (insert_sorted a xs)
  unfolding insert_sorted find_by
  insert_sorted-IsSorted a [] h s = (tt, tt)
  insert_sorted-IsSorted a (x ∷ xs) h s = ground (
    arith,
    ==_iff (key x) (key a),
    text_lt-connected (key x) (key a),
    insert_sorted-IsSorted a xs,
    insert_sorted-Above (key x) a xs,
    Above-trans (key a) (key x) xs,
  )

  -- Sorting keeps what each key finds.
  pub find_by-sort_by :
      (k : Text) (xs : List A) → DistinctBy xs → find_by k (sort_by xs) ≡ find_by k xs
  unfolding sort_by find_by
  find_by-sort_by k [] d = refl
  find_by-sort_by k (x ∷ xs) d =
      find_by-insert_sorted k x (sort_by xs) (find_by-sort_by (key x) xs d.1 ∙ d.0)
      ∙ rw (find_by-sort_by k xs d.1)

  pub sort_by-IsSorted : (xs : List A) → DistinctBy xs → IsSorted (sort_by xs)
  unfolding sort_by
  sort_by-IsSorted [] d = tt
  sort_by-IsSorted (x ∷ xs) d =
      insert_sorted-IsSorted x (sort_by xs) (find_by-sort_by (key x) xs d.1 ∙ d.0)
        (sort_by-IsSorted xs d.1)

  sorted_heads :
      (x y : A) (xs ys : List A)
      → Above (key x) xs
      → Above (key y) ys
      → ((k : Text) → find_by k (x ∷ xs) ≡ find_by k (y ∷ ys))
      → x ≡ y
  unfolding find_by
  sorted_heads x y xs ys a b h = ground (
    arith,
    h (key x),
    h (key y),
    ==_iff (key x) (key y),
    ==_iff (key y) (key x),
    ==_self (key x),
    ==_self (key y),
    text_lt-connected (key x) (key y),
    find_by-Above (key x) ys,
    find_by-Above (key y) xs,
    Above-trans (key x) (key y) ys,
    Above-trans (key y) (key x) xs,
  )

  sorted_tails :
      (x y : A) (xs ys : List A)
      → Above (key x) xs
      → Above (key y) ys
      → ((k : Text) → find_by k (x ∷ xs) ≡ find_by k (y ∷ ys))
      → x ≡ y
      → (k : Text) → find_by k xs ≡ find_by k ys
  unfolding find_by
  sorted_tails x y xs ys a b h e k = ground (
    arith,
    h k,
    ==_iff (key x) k,
    ==_iff (key y) k,
    find_by-Above (key x) xs,
    find_by-Above (key y) ys,
  )

  -- Two sorted lists that find the same for every key are one list.
  pub sorted_ext :
      (xs ys : List A)
      → IsSorted xs
      → IsSorted ys
      → ((k : Text) → find_by k xs ≡ find_by k ys)
      → xs ≡ ys
  sorted_ext [] [] s t h = refl
  sorted_ext [] (y ∷ ys) s t h = absurd (unfold find_by in cc (h (key y), ==_self (key y)))
  sorted_ext (x ∷ xs) [] s t h = absurd (unfold find_by in cc (h (key x), ==_self (key x)))
  sorted_ext (x ∷ xs) (y ∷ ys) s t h =
      let same = sorted_heads x y xs ys s.0 t.0 h in
      ap₂ ◌∷◌ same (sorted_ext xs ys s.1 t.1 (sorted_tails x y xs ys s.0 t.0 h same))

  -- The result of sorting depends on the elements, and not on their order.
  pub sort_by_unique :
      (xs ys : List A)
      → DistinctBy xs
      → DistinctBy ys
      → ((k : Text) → find_by k xs ≡ find_by k ys)
      → sort_by xs ≡ sort_by ys
  sort_by_unique xs ys d e h =
      sorted_ext (sort_by xs) (sort_by ys) (sort_by-IsSorted xs d) (sort_by-IsSorted ys e)
        λ k. find_by-sort_by k xs d ∙ h k ∙ sym (find_by-sort_by k ys e)
