-- ===== src/Common/Text.antt =====
-- Go strings as lists of bytes: equality, order, prefixes, splitting and trimming, as the packages
-- `strings` and `slices` define them on ASCII separators.
use Prim.Native.Char.{code}
use Prim.Native.String.{String}
use Prim.Native.Nat.{ℕ, ◌+◌}
use mathlib.Core.Path.{◌≡◌, refl}
use mathlib.Core.Logic.{◌↔◌, ◌≢◌}
use mathlib.Core.Option
use mathlib.Core.Bool.{Bool, true, false, ◌&&◌, ◌||◌}
use mathlib.Core.Option.{Option, none, some}
use mathlib.Core.List.{List, [], ◌∷◌, reverse}
use native.Mathlib.Omega.{arith}
use tailscale_metrics_discov.Common.Tests.{ltb, leb, eqb, or_else, if◌then◌else◌}

abbrev pub Text : Type 0
Text = List ℕ

-- The bytes of an ASCII literal.
unfoldable pub text : String → Text
text String.[] = []
text (String.◌∷◌ c s) = code c ∷ text s

infix 50 ◌==◌
unfoldable pub ◌==◌ : Text → Text → Bool
[] == [] = true
[] == (y ∷ ys) = false
(x ∷ xs) == [] = false
(x ∷ xs) == (y ∷ ys) = eqb x y && (xs == ys)

pub ==_iff : (s t : Text) → ((s == t) ≡ true) ↔ (s ≡ t)
unfolding ◌==◌
==_iff [] [] = ground arith
==_iff [] (y ∷ ys) = ground arith
==_iff (x ∷ xs) [] = ground arith
==_iff (x ∷ xs) (y ∷ ys) = ground (arith, ==_iff xs ys)

pub ==_self : (s : Text) → (s == s) ≡ true
==_self s = (==_iff s s).1 refl

-- a < b on strings: byte-wise lexicographic.
unfoldable pub text_lt : Text → Text → Bool
text_lt [] [] = false
text_lt [] (y ∷ ys) = true
text_lt (x ∷ xs) [] = false
text_lt (x ∷ xs) (y ∷ ys) =
    let rest = text_lt xs ys in if ltb x y then true else if ltb y x then false else rest

pub text_lt_irrefl : (s : Text) → text_lt s s ≡ false
unfolding text_lt
text_lt_irrefl [] = refl
text_lt_irrefl (x ∷ xs) = ground (arith, text_lt_irrefl xs)

pub text_lt_trans : (a b c : Text) → text_lt a b ≡ true → text_lt b c ≡ true → text_lt a c ≡ true
unfolding text_lt
text_lt_trans [] [] c h k = cc
text_lt_trans [] (y ∷ ys) [] h k = cc
text_lt_trans [] (y ∷ ys) (z ∷ zs) h k = refl
text_lt_trans (x ∷ xs) [] c h k = cc
text_lt_trans (x ∷ xs) (y ∷ ys) [] h k = cc
text_lt_trans (x ∷ xs) (y ∷ ys) (z ∷ zs) h k = ground (arith, text_lt_trans xs ys zs)

pub text_lt-connected : (a b : Text) → text_lt a b ≡ false → text_lt b a ≡ false → a ≡ b
unfolding text_lt
text_lt-connected [] [] h k = refl
text_lt-connected [] (y ∷ ys) h k = cc
text_lt-connected (x ∷ xs) [] h k = cc
text_lt-connected (x ∷ xs) (y ∷ ys) h k = ground (arith, text_lt-connected xs ys)

-- strings.HasPrefix and strings.CutPrefix: what follows the prefix.
unfoldable pub cut_prefix : Text → Text → Option Text
cut_prefix [] s = some s
cut_prefix (p ∷ ps) [] = none
cut_prefix (p ∷ ps) (c ∷ s) = if eqb p c then cut_prefix ps s else none

-- strings.CutSuffix and strings.TrimSuffix
unfoldable pub cut_suffix : Text → Text → Option Text
unfolding cut_prefix
cut_suffix p s = Option.map reverse (cut_prefix (reverse p) (reverse s))

unfoldable pub trim_suffix : Text → Text → Text
unfolding cut_suffix
trim_suffix p s = or_else (cut_suffix p s) s

-- strings.TrimLeft of one byte
unfoldable pub trim_left : ℕ → Text → Text
trim_left c [] = []
trim_left c (d ∷ s) = let rest = trim_left c s in if eqb c d then rest else d ∷ s

-- strings.Trim of one byte
unfoldable pub trim : ℕ → Text → Text
unfolding trim_left
trim c s = reverse (trim_left c (reverse (trim_left c s)))

-- One more byte in front of the first part.
abbrev pub onto_head : ℕ → List Text → List Text
onto_head c [] = (c ∷ []) ∷ []
onto_head c (p ∷ ps) = (c ∷ p) ∷ ps

-- strings.Split at one byte; a text without it is one part.
unfoldable pub split : ℕ → Text → List Text
split c [] = [] ∷ []
split c (d ∷ s) = let parts = split c s in if eqb c d then [] ∷ parts else onto_head d parts

-- Whether a text is free of a byte.
abbrev pub Free : ℕ → Text → Type 0
Free c [] = Unit
Free c (d ∷ s) = (c ≢ d) × Free c s

-- strings.IndexByte: what stands before and behind the first occurrence.
unfoldable pub cut_at : ℕ → Text → Option (Text × Text)
cut_at c [] = none
cut_at c (d ∷ s) =
    let later = Option.map (λ p. (d ∷ p.0, p.1)) (cut_at c s) in
    if eqb c d then some ([], s) else later

unfoldable pub to_lower : Text → Text
to_lower [] = []
to_lower (c ∷ s) = (if leb b'A' c && leb c b'Z' then c + 32 else c) ∷ to_lower s

-- strings.TrimSpace, of the ASCII white space.
is_space : ℕ → Bool
is_space c = eqb c 32 || (leb 9 c && leb c 13)

trim_space_left : Text → Text
unfolding is_space
trim_space_left [] = []
trim_space_left (c ∷ s) = let rest = trim_space_left s in if is_space c then rest else c ∷ s

unfoldable pub trim_space : Text → Text
unfolding trim_space_left
trim_space s = reverse (trim_space_left (reverse (trim_space_left s)))
