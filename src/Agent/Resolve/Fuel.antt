-- ===== src/Agent/Resolve/Fuel.antt =====
-- The loop of `resolveTarget` ends: each round leaves less of the target.
use mathlib.Core.Option
use tailscale_metrics_discov.Common.{
  ℕ, zero, suc, ◌<◌, ◌≤◌, ◌≡◌, subst, [], ◌∷◌, ◌++◌, Option, none, some, arith, length, eqb,
  Option-cases, Bool-cases, inl, inr,
}
use tailscale_metrics_discov.Common.Text.{Text, cut_at}
use tailscale_metrics_discov.Agent.Resolve.{
  Interfaces, ResolveContext, resolve_from, resolve_var, resolve_target,
}

-- What is left behind a byte is shorter.
Shorter : Text → Option (Text × Text) → Type 0
Shorter s none = Unit
Shorter s (some (before, behind)) = length behind < length s

cut_at-Shorter : (c : ℕ) (s : Text) → Shorter s (cut_at c s)
unfolding Shorter cut_at
cut_at-Shorter c [] = tt
cut_at-Shorter c (d ∷ s) = elim (Bool-cases (eqb c d)) [
  | inl e ↦ rw (e, cut_at) (ground arith)
  | inr e ↦ (elim (Option-cases (cut_at c s)) [
    | inl n ↦ rw (e, n, cut_at) tt
    | inr ((before, behind), n) ↦
        let shorter : length behind < length s = subst (Shorter s) n (cut_at-Shorter c s) in
        rw (e, n, cut_at) (ground (arith, shorter))
  ])
]

behind_shorter :
    (c n : ℕ) (s before behind : Text)
    → cut_at c s ≡ some (before, behind)
    → length s ≤ n
    → length behind < n
unfolding Shorter
behind_shorter c n s before behind e h =
    let shorter : length behind < length s = subst (Shorter s) e (cut_at-Shorter c s) in
    ground (arith, shorter, h)

module _ (interface_ip : Interfaces) (rc : ResolveContext) where
  -- A finished run of the loop over what is left of a target, with the text that it adds to the output,
  -- or with nothing if a variable has no value. It knows of no fuel.
  pub data Run : Text → Option Text → Type 0 where
    no_brace : (t : Text) → cut_at b'{' t ≡ none → Run t (some t)
    unclosed :
        (t before behind : Text)
        → cut_at b'{' t ≡ some (before, behind)
        → cut_at b'}' behind ≡ none
        → Run t (some (before ++ b'{' ∷ behind))
    unresolved :
        (t before behind name left : Text)
        → cut_at b'{' t ≡ some (before, behind)
        → cut_at b'}' behind ≡ some (name, left)
        → resolve_var interface_ip rc name ≡ none
        → Run t none
    resolved :
        (t before behind name left val : Text) (rest : Option Text)
        → cut_at b'{' t ≡ some (before, behind)
        → cut_at b'}' behind ≡ some (name, left)
        → resolve_var interface_ip rc name ≡ some val
        → Run left rest
        → Run t (Option.map (λ out. before ++ (val ++ out)) rest)

  resolve_from-Run : (n : ℕ) (t : Text) → length t < n → Run t (resolve_from interface_ip rc n t)
  unfolding resolve_from
  resolve_from-Run zero t h = ground (arith, h)
  resolve_from-Run (suc n) t h = elim (Option-cases (cut_at b'{' t)) [
    | inl e ↦ rw (e, resolve_from) (no_brace t e)
    | inr ((before, behind), e) ↦ (elim (Option-cases (cut_at b'}' behind)) [
      | inl f ↦ rw (e, f, resolve_from) (unclosed t before behind e f)
      | inr ((name, left), f) ↦
          let short =
            behind_shorter b'}' n behind name left f
              (ground (arith, behind_shorter b'{' n t before behind e (ground (arith, h)))) in
          (elim (Option-cases (resolve_var interface_ip rc name)) [
            | inl g ↦ rw (e, f, g, resolve_from) (unresolved t before behind name left e f g)
            | inr (val, g) ↦
                rw (e, f, g, resolve_from)
                  (resolved t before behind name left val _ e f g (resolve_from-Run n left short))
          ])
    ])
  ]

  -- The loop over any target comes to its end: the result of the model is that of a finished run, whose
  -- rounds each take up one pair of braces, and it is nothing only if a variable has no value.
  pub resolve_target-Run : (t : Text) → Run t (resolve_target interface_ip rc t)
  unfolding resolve_target
  resolve_target-Run t = resolve_from-Run (suc (length t)) t (ground arith)
