-- ===== src/Agent/Bucket/GroupKey/Canonical.antt =====
-- The canonical text of a label set: it is the same for every order of the labels, and no two label
-- sets share it.
use tailscale_metrics_discov.Common.{
  ℕ, ◌≡◌, ◌↔◌, refl, sym, ap, ap₂, ◌∙◌, List, [], ◌∷◌, ◌++◌, Option, none, some, arith, length,
  take-append, drop-append, or_else, is_some, All, subst, inl, inr, Bool-cases, if◌then◌else◌,
}
use tailscale_metrics_discov.Common.Decimal.{show, show_cut}
use tailscale_metrics_discov.Common.Text.{Text, ◌==◌, ==_iff}
use tailscale_metrics_discov.Common.Dict.{Dict, lookup, Distinct, Same}
use tailscale_metrics_discov.Common.Sorting.{
  sort_by, find_by, DistinctBy, sort_by_unique, find_by-sort_by,
}
use tailscale_metrics_discov.Agent.Bucket.GroupKey.{
  own_name, frame, write_names, label_names, canonical_group_key,
}

-- Two texts of one length in front of two rests.
append_cut : (a b r s : Text) → length a ≡ length b → a ++ r ≡ b ++ s → (a ≡ b) × (r ≡ s)
append_cut a b r s h e = (
  sym (take-append a r) ∙ rw (e, h) (take-append b s),
  sym (drop-append a r) ∙ rw (e, h) (drop-append b s),
)

-- A length, a colon, the text, and what follows.
counted_cut :
    (a b r s : Text)
    → show (length a) ++ b':' ∷ (a ++ r) ≡ show (length b) ++ b':' ∷ (b ++ s)
    → (a ≡ b) × (r ≡ s)
counted_cut a b r s e =
    let (same, rest) = show_cut b':' (length a) (length b) (a ++ r) (b ++ s) (omega arith) e in
    append_cut a b r s same rest

tail_eq : (x : ℕ) (r s : Text) → ◌≡◌ {A = Text} (x ∷ r) (x ∷ s) → r ≡ s
tail_eq x r s e = cc

frame_cut : (a b v w r s : Text) → frame a v r ≡ frame b w s → (a ≡ b) × (v ≡ w) × (r ≡ s)
frame_cut a b v w r s e =
    let (names, after) = counted_cut a b _ _ e in
    let (values, rest) = counted_cut v w (b';' ∷ r) (b';' ∷ s) (tail_eq b'=' _ _ after) in
    (names, values, tail_eq b';' r s rest)

append-ne-nil : (xs : Text) (y : ℕ) (ys : Text) → xs ++ y ∷ ys ≡ [] → ⊥
append-ne-nil [] y ys e = cc
append-ne-nil (x ∷ xs) y ys e = cc

abbrev value_of : Dict Text → Text → Text
value_of labels name = or_else (lookup name labels) []

-- The text gives back the names in their order, and the value of each.
write_names_cut :
    (l m : Dict Text) (ns ks : List Text)
    → write_names l ns ≡ write_names m ks
    → (ns ≡ ks) × All (λ n. value_of l n ≡ value_of m n) ns
unfolding write_names
write_names_cut l m [] [] e = (refl, tt)
write_names_cut l m [] (k ∷ ks) e = absurd (append-ne-nil (show (length k)) b':' _ (sym e))
write_names_cut l m (n ∷ ns) [] e = absurd (append-ne-nil (show (length n)) b':' _ e)
write_names_cut l m (n ∷ ns) (k ∷ ks) e =
    let (names, values, rest) =
      frame_cut n k (value_of l n) (value_of m k) (write_names l ns) (write_names m ks) e in
    let (more, all) = write_names_cut l m ns ks rest in
    (ap₂ ◌∷◌ names more, (values ∙ ap (value_of m) (sym names), all))

find-label_names :
    (k : Text) (l : Dict Text)
    → find_by own_name k (label_names l) ≡ (if is_some (lookup k l) then some k else none)
unfolding find_by lookup
find-label_names k [] = refl
find-label_names k ((j, v) ∷ l) = ground (arith, ==_iff j k, find-label_names k l)

label_names-DistinctBy : (l : Dict Text) → Distinct l → DistinctBy own_name (label_names l)
label_names-DistinctBy [] d = tt
label_names-DistinctBy ((k, v) ∷ l) d =
    (find-label_names k l ∙ rw d.0, label_names-DistinctBy l d.1)

All_at :
    (P : Text → Type 0) (k : Text) (xs : List Text)
    → All P xs
    → find_by own_name k xs ≡ some k
    → P k
unfolding find_by
All_at P k [] h e = cc
All_at P k (x ∷ xs) h e = elim (Bool-cases (x == k)) [
  | inl hit ↦ subst P ((==_iff x k).0 hit) h.0
  | inr miss ↦ All_at P k xs h.1 (rw miss at e)
]

sorted_names :
    (k : Text) (l : Dict Text)
    → Distinct l
    → find_by own_name k (sort_by own_name (label_names l))
      ≡ (if is_some (lookup k l) then some k else none)
sorted_names k l d =
    find_by-sort_by own_name k (label_names l) (label_names-DistinctBy l d) ∙ find-label_names k l

write_names-Same :
    (l m : Dict Text) (ns : List Text) → Same l m → write_names l ns ≡ write_names m ns
unfolding write_names
write_names-Same l m [] h = refl
write_names-Same l m (n ∷ ns) h = rw (h n, write_names-Same l m ns h)

-- The order in which the labels were given is not seen in the key.
canonical-Same :
    (l m : Dict Text)
    → Distinct l
    → Distinct m
    → Same l m
    → canonical_group_key l ≡ canonical_group_key m
unfolding canonical_group_key
canonical-Same l m d e h =
    write_names-Same l m _ h
    ∙ ap (write_names m) (
        sort_by_unique own_name (label_names l) (label_names m) (label_names-DistinctBy l d)
          (label_names-DistinctBy m e)
          λ k. find-label_names k l ∙ rw (h k) (sym (find-label_names k m)))

same_option :
    (k : Text) (a b : Option Text)
    → (if is_some a then some k else none) ≡ (if is_some b then some k else none)
    → (a ≡ some (or_else a []) → or_else a [] ≡ or_else b [])
    → a ≡ b
same_option k a b h v = ground arith

canonical-injective :
    (l m : Dict Text)
    → Distinct l
    → Distinct m
    → canonical_group_key l ≡ canonical_group_key m
    → Same l m
unfolding canonical_group_key
canonical-injective l m d e h k =
    let (names, values) = write_names_cut l m _ _ h in
    same_option k (lookup k l) (lookup k m)
      (sym (sorted_names k l d) ∙ ap (find_by own_name k) names ∙ sorted_names k m e)
      λ p. All_at (λ n. value_of l n ≡ value_of m n) k _ values (sorted_names k l d ∙ rw p)

-- Two label sets with distinct names have one canonical key exactly when they are the same map.
pub canonical_iff :
    (l m : Dict Text)
    → Distinct l
    → Distinct m
    → (canonical_group_key l ≡ canonical_group_key m) ↔ Same l m
canonical_iff l m d e = (canonical-injective l m d e, canonical-Same l m d e)
