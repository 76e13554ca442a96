-- ===== src/Agent/Resolve/Template.antt =====
-- What `resolveTarget` makes of a target that is written as literal text and variables in braces.
use mathlib.Core.Option
use tailscale_metrics_discov.Common.{
  ℕ, zero, suc, ◌≡◌, ◌≤◌, ◌<◌, refl, List, [], ◌∷◌, ◌++◌, Option, none, some, length, arith,
  length-append, Option-cases, inl, inr,
}
use tailscale_metrics_discov.Common.Text.{Text, cut_at, Free}
use tailscale_metrics_discov.Agent.Resolve.{
  Interfaces, ResolveContext, resolve_var, resolve_from, resolve_target,
}

cut_at-Free : (c : ℕ) (s t : Text) → Free c s → cut_at c (s ++ c ∷ t) ≡ some (s, t)
unfolding cut_at
cut_at-Free c [] t f = ground arith
cut_at-Free c (d ∷ s) t f = rw (cut_at-Free c s t f.1) (ground (arith, f.0))

cut_at-absent : (c : ℕ) (s : Text) → Free c s → cut_at c s ≡ none
unfolding cut_at
cut_at-absent c [] f = refl
cut_at-absent c (d ∷ s) f = rw (cut_at-absent c s f.1) (ground (arith, f.0))

-- Literal texts, each with the variable that follows it.
abbrev pub Segments : Type 0
Segments = List (Text × Text)

abbrev pub written : Segments → Text → Text
written [] tail = tail
written ((literal, name) ∷ ss) tail = literal ++ b'{' ∷ (name ++ b'}' ∷ written ss tail)

-- No literal has an opening brace, and no variable a closing one.
abbrev pub IsPlain : Segments → Type 0
IsPlain [] = Unit
IsPlain ((literal, name) ∷ ss) = Free b'{' literal × (Free b'}' name × IsPlain ss)

-- Every variable replaced by its value, if each has one.
abbrev pub filled : Interfaces → ResolveContext → Segments → Text → Option Text
filled ifs rc [] tail = some tail
filled ifs rc ((literal, name) ∷ ss) tail =
    let rest = filled ifs rc ss tail in
    elim (resolve_var ifs rc name) [
      | none ↦ none
      | some val ↦ Option.map (λ out. literal ++ (val ++ out)) rest
    ]

resolve_from-filled :
    (ifs : Interfaces) (rc : ResolveContext) (fuel : ℕ) (ss : Segments) (tail : Text)
    → IsPlain ss
    → Free b'{' tail
    → length ss < fuel
    → resolve_from ifs rc fuel (written ss tail) ≡ filled ifs rc ss tail
unfolding resolve_from
resolve_from-filled ifs rc zero ss tail p f h = absurd (omega (arith, h))
resolve_from-filled ifs rc (suc fuel) [] tail p f h =
    rw (cut_at-absent b'{' tail f, resolve_from) refl
resolve_from-filled ifs rc (suc fuel) ((literal, name) ∷ ss) tail p f h =
    let opening = cut_at-Free b'{' literal (name ++ b'}' ∷ written ss tail) p.0 in
    let closing = cut_at-Free b'}' name (written ss tail) p.1.0 in
    let later = resolve_from-filled ifs rc fuel ss tail p.1.1 f omega arith in
    elim (Option-cases (resolve_var ifs rc name)) [
      | inl e ↦ rw (opening, closing, e, resolve_from, filled) refl
      | inr (v, e) ↦ rw (opening, closing, e, resolve_from, filled, later) refl
    ]

length-written : (ss : Segments) (tail : Text) → length ss ≤ length (written ss tail)
length-written [] tail = omega arith
length-written ((literal, name) ∷ ss) tail = omega (
  arith,
  length-written ss tail,
  length-append literal (b'{' ∷ (name ++ b'}' ∷ written ss tail)),
  length-append name (b'}' ∷ written ss tail),
)

-- A target of literal text and variables in braces resolves to the text with every variable replaced
-- by its value, and to nothing if some variable has no value, however many variables it has.
pub resolve_target-filled :
    (ifs : Interfaces) (rc : ResolveContext) (ss : Segments) (tail : Text)
    → IsPlain ss
    → Free b'{' tail
    → resolve_target ifs rc (written ss tail) ≡ filled ifs rc ss tail
unfolding resolve_target
resolve_target-filled ifs rc ss tail p f =
    resolve_from-filled ifs rc _ ss tail p f (omega (arith, length-written ss tail))
