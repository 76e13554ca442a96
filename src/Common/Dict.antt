-- ===== src/Common/Dict.antt =====
-- Go maps with string keys, as association lists. A map's iteration order is unspecified in Go: a
-- loop over a map takes the list's order, and `Same` relates the lists that stand for one map.
use mathlib.Core.Path.{◌≡◌, refl, subst}
use mathlib.Core.Logic.{inl, inr}
use mathlib.Core.Bool.{Bool}
use mathlib.Core.Option.{Option, none, some}
use mathlib.Core.List.{List, [], ◌∷◌}
use native.Mathlib.Omega.{arith}
use tailscale_metrics_discov.Common.Tests.{Bool-cases, some_eq, if◌then◌else◌, is_some}
use tailscale_metrics_discov.Common.Text.{Text, ◌==◌, ==_iff}

abbrev pub Dict {ℓ} : Type ℓ → Type ℓ
Dict V = List (Text × V)

module _ {ℓ} {V : Type ℓ} where
  -- v, ok := m[k]
  unfoldable pub lookup : Text → Dict V → Option V
  lookup k [] = none
  lookup k ((j, v) ∷ m) = if j == k then some v else lookup k m

  -- m[k] = v
  unfoldable pub insert : Text → V → Dict V → Dict V
  insert key value [] = (key, value) ∷ []
  insert key value ((k, old) ∷ rest) =
      if k == key then (key, value) ∷ rest else (k, old) ∷ insert key value rest

  -- delete(m, k)
  unfoldable pub delete : Text → Dict V → Dict V
  delete k [] = []
  delete k ((j, v) ∷ m) = let rest = delete k m in if j == k then rest else (j, v) ∷ rest

  -- maps.Copy(dst, src)
  unfoldable pub copy : Dict V → Dict V → Dict V
  copy dst [] = dst
  copy dst ((k, v) ∷ src) = copy (insert k v dst) src

  abbrev pub has : Text → Dict V → Bool
  has k m = is_some (lookup k m)

  pub lookup-insert :
      (key other : Text) (value : V) (rest : Dict V)
      → lookup other (insert key value rest)
        ≡ (if key == other then some value else lookup other rest)
  unfolding lookup insert
  lookup-insert key other value [] = refl
  lookup-insert key other value ((i, w) ∷ rest) =
      ground
        (arith, ==_iff key other, ==_iff i key, ==_iff i other, lookup-insert key other value rest)

  pub lookup-delete :
      (k j : Text) (m : Dict V) → lookup j (delete k m) ≡ (if k == j then none else lookup j m)
  unfolding lookup delete
  lookup-delete k j [] = ground arith
  lookup-delete k j ((i, w) ∷ m) =
      ground (arith, ==_iff k j, ==_iff i k, ==_iff i j, lookup-delete k j m)

  -- No key occurs twice, as in every Go map.
  abbrev pub Distinct : Dict V → Type ℓ
  Distinct [] = Unit
  Distinct ((k, v) ∷ m) = (lookup k m ≡ none) × Distinct m

  pub insert-Distinct : (k : Text) (v : V) (m : Dict V) → Distinct m → Distinct (insert k v m)
  unfolding insert lookup
  insert-Distinct k v [] d = (refl, tt)
  insert-Distinct k v ((i, w) ∷ m) d =
      ground (arith, ==_iff i k, ==_iff k i, lookup-insert k i v m, insert-Distinct k v m d.1)

  pub delete-Distinct : (k : Text) (m : Dict V) → Distinct m → Distinct (delete k m)
  unfolding delete lookup
  delete-Distinct k [] d = tt
  delete-Distinct k ((i, w) ∷ m) d =
      ground (arith, ==_iff k i, lookup-delete k i m, delete-Distinct k m d.1)

-- Two lists that stand for the same map.
abbrev pub Same {ℓ} : {V : Type ℓ} → Dict V → Dict V → Type ℓ
Same m n = (k : Text) → lookup k m ≡ lookup k n

-- Every value has a property.
abbrev pub AllValues {ℓ κ} : {V : Type ℓ} → (V → Type κ) → Dict V → Type κ
AllValues P [] = Unit
AllValues P ((k, v) ∷ m) = P v × AllValues P m

-- Every key with its value has a property.
abbrev pub AllEntries {ℓ κ} : {V : Type ℓ} → (Text → V → Type κ) → Dict V → Type κ
AllEntries P [] = Unit
AllEntries P ((k, v) ∷ m) = P k v × AllEntries P m

module _ {ℓ κ} {V : Type ℓ} (P : Text → V → Type κ) where
  pub insert-AllEntries :
      (k : Text) (v : V) (m : Dict V) → P k v → AllEntries P m → AllEntries P (insert k v m)
  unfolding insert
  insert-AllEntries k v [] h a = (h, tt)
  insert-AllEntries k v ((j, w) ∷ m) h a = elim (Bool-cases (j == k)) [
    | inl hit ↦ rw hit (h, a.1)
    | inr miss ↦ rw miss (a.0, insert-AllEntries k v m h a.1)
  ]

  pub delete-AllEntries : (k : Text) (m : Dict V) → AllEntries P m → AllEntries P (delete k m)
  unfolding delete
  delete-AllEntries k [] a = tt
  delete-AllEntries k ((j, w) ∷ m) a = elim (Bool-cases (j == k)) [
    | inl hit ↦ rw hit (delete-AllEntries k m a.1)
    | inr miss ↦ rw miss (a.0, delete-AllEntries k m a.1)
  ]

  pub lookup-AllEntries :
      (k : Text) (m : Dict V) {v : V} → AllEntries P m → lookup k m ≡ some v → P k v
  unfolding lookup
  lookup-AllEntries k [] a e = cc
  lookup-AllEntries k ((j, w) ∷ m) {v} a e = elim (Bool-cases (j == k)) [
    | inl hit ↦ subst (λ x. P x v) ((==_iff j k).0 hit) (subst (P j) (some_eq (rw hit at e)) a.0)
    | inr miss ↦ lookup-AllEntries k m a.1 (rw miss at e)
  ]
