-- ===== src/Common/Decimal.antt =====
-- Integers, and `%d` of package fmt.
use Prim.Native.Nat.{ℕ, zero, suc, ◌+◌, ◌-◌, ◌*◌, ◌/◌, ◌%◌, ◌≤◌, ◌<◌}
use mathlib.Core.Path.{◌≡◌, refl, ap, sym, ◌∙◌}
use mathlib.Core.Bool.{Bool, false}
use mathlib.Core.List.{[], ◌∷◌, ◌++◌}
use native.Mathlib.Omega.{arith}
use tailscale_metrics_discov.Common.Tests.{ltb, if◌then◌else◌}
use tailscale_metrics_discov.Common.Lists.{All}
use tailscale_metrics_discov.Common.Text.{Text}

-- `negsuc n` is -(n + 1).
pub data ℤ : Type 0 where
  pos : ℕ → ℤ
  negsuc : ℕ → ℤ

-- 0 < a
abbrev pub is_positive : ℤ → Bool
is_positive (pos n) = ltb 0 n
is_positive (negsuc n) = false

-- The decimal digits of a number, most significant first; the fuel is one more than the number.
digits : ℕ → ℕ → Text
digits zero n = []
digits (suc f) n =
    let rest = digits f (n / 10) in if ltb n 10 then (48 + n) ∷ [] else rest ++ (48 + n % 10) ∷ []

unfoldable pub show : ℕ → Text
unfolding digits
show n = digits (suc n) n

unfoldable pub show_int : ℤ → Text
unfolding show
show_int (pos n) = show n
show_int (negsuc n) = b'-' ∷ show (suc n)

-- The value of a row of digits after `acc`.
value : ℕ → Text → ℕ
value acc [] = acc
value acc (d ∷ ds) = value (acc * 10 + (d - 48)) ds

value-append :
    (acc : ℕ) (ds : Text) (d : ℕ) → value acc (ds ++ d ∷ []) ≡ value acc ds * 10 + (d - 48)
unfolding value
value-append acc [] d = refl
value-append acc (c ∷ ds) d = value-append (acc * 10 + (c - 48)) ds d

value-digits : (f n : ℕ) → n < f → value 0 (digits f n) ≡ n
unfolding digits value
value-digits zero n h = elim h [ ]
value-digits (suc f) n h =
    ground (arith, value-append 0 (digits f (n / 10)) (48 + n % 10), value-digits f (n / 10))

value-show : (n : ℕ) → value 0 (show n) ≡ n
unfolding show
value-show n = value-digits (suc n) n (omega arith)

abbrev IsDigit : ℕ → Type 0
IsDigit c = (48 ≤ c) × (c < 58)

digits-append : (ds es : Text) → All IsDigit ds → All IsDigit es → All IsDigit (ds ++ es)
digits-append [] es h k = k
digits-append (d ∷ ds) es h k = (h.0, digits-append ds es h.1 k)

digits-All : (f n : ℕ) → All IsDigit (digits f n)
unfolding digits
digits-All zero n = tt
digits-All (suc f) n =
    ground (arith, digits-append (digits f (n / 10)) ((48 + n % 10) ∷ []) (digits-All f (n / 10)))

show-All : (n : ℕ) → All IsDigit (show n)
unfolding show
show-All n = digits-All (suc n) n

-- What follows the digits of two numbers tells where they end.
digits_cut :
    (c : ℕ) (ds es r s : Text)
    → 58 ≤ c
    → All IsDigit ds
    → All IsDigit es
    → ds ++ c ∷ r ≡ es ++ c ∷ s
    → (ds ≡ es) × (r ≡ s)
digits_cut c [] [] r s h a b e = ground arith
digits_cut c [] (x ∷ es) r s h a b e = ground arith
digits_cut c (d ∷ ds) [] r s h a b e = ground arith
digits_cut c (d ∷ ds) (x ∷ es) r s h a b e = ground (arith, digits_cut c ds es r s h a.1 b.1)

-- A printed number in front of a byte above the digits is read back.
pub show_cut :
    (c m n : ℕ) (r s : Text) → 58 ≤ c → show m ++ c ∷ r ≡ show n ++ c ∷ s → (m ≡ n) × (r ≡ s)
show_cut c m n r s h e =
    let (same, rest) = digits_cut c (show m) (show n) r s h (show-All m) (show-All n) e in
    (sym (value-show m) ∙ ap (value 0) same ∙ value-show n, rest)
