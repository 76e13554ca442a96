-- ===== src/Central/Discovery/Attrs.antt =====
-- What internal/tsutil/attrs.go accepts from a node's capabilities.
use tailscale_metrics_discov.Common.{
  ℕ, ◌≡◌, ◌≤◌, ◌⊎◌, inl, inr, subst, true, false, List, [], ◌∷◌, ◌++◌, Option, none, some, is_empty,
  All, Bool-cases, Option-cases, some_eq, arith,
}
use mathlib.Core.Option
use tailscale_metrics_discov.Common.Text.{Text, ◌==◌, cut_prefix}
use tailscale_metrics_discov.Central.Discovery.{
  NodeAttrs, no_attrs, read_tag, read_port, read_cap, read_caps, parse_cap_map, attrs_valid,
  prefix_agent_port, atoi_positive,
}

abbrev pub NonEmpty : List Text → Type 0
NonEmpty = All (λ t. (t == []) ≡ false)

NonEmpty-append : (ts us : List Text) → NonEmpty ts → NonEmpty us → NonEmpty (ts ++ us)
NonEmpty-append [] us h k = k
NonEmpty-append (t ∷ ts) us h k = (h.0, NonEmpty-append ts us h.1 k)

read_tag-NonEmpty :
    (prefix cap : Text) (tags : List Text) → NonEmpty tags → NonEmpty (read_tag prefix cap tags)
unfolding read_tag
read_tag-NonEmpty prefix c tags h = elim (Option-cases (cut_prefix prefix c)) [
  | inl e ↦ rw (e, read_tag) h
  | inr (tag, e) ↦ (elim (Bool-cases (tag == [])) [
    | inl f ↦ rw (e, f, read_tag) h
    | inr f ↦ rw (e, f, read_tag) (NonEmpty-append tags (tag ∷ []) h (f, tt))
  ])
]

read_port-InRange : (cap : Text) (port : ℕ) → port ≤ 65535 → read_port cap port ≤ 65535
unfolding read_port
read_port-InRange c port h =
    elim (Option-cases (Option.bind (cut_prefix prefix_agent_port c) atoi_positive)) [
      | inl e ↦ rw (e, read_port) h
      | inr (p, e) ↦ rw (e, read_port) (ground arith)
    ]

-- Tags that are not empty, and a port of sixteen bits.
abbrev pub IsSane : NodeAttrs → Type 0
IsSane a = NonEmpty a.agent_tags × (NonEmpty a.central_tags × (a.agent_port ≤ 65535))

read_caps-IsSane : (caps : List Text) (a : NodeAttrs) → IsSane a → IsSane (read_caps caps a)
unfolding read_caps read_cap
read_caps-IsSane [] a h = h
read_caps-IsSane (c ∷ caps) a h = read_caps-IsSane caps (read_cap c a) (
  read_tag-NonEmpty _ c a.agent_tags h.0,
  (read_tag-NonEmpty _ c a.central_tags h.1.0, read_port-InRange c a.agent_port h.1.1),
)

-- Whatever capabilities a node has, the attributes that `ParseCapMap` accepts have a port from 1 to
-- 65535, no empty tag, and a tag of at least one of the two kinds.
pub parse_cap_map-IsSane :
    (caps : Option (List Text)) (a : NodeAttrs)
    → parse_cap_map caps ≡ some a
    → IsSane a
      × ((1 ≤ a.agent_port) × ((is_empty a.agent_tags ≡ false) ⊎ (is_empty a.central_tags ≡ false)))
unfolding parse_cap_map
parse_cap_map-IsSane none a e = cc
parse_cap_map-IsSane (some caps) a e =
    let read = read_caps caps no_attrs in
    elim (Bool-cases (attrs_valid read)) [
      | inl ok ↦
          let found : ◌≡◌ {A = Option NodeAttrs} (some read) (some a) = ground arith in
          let valid : attrs_valid a ≡ true = subst (λ b. attrs_valid b ≡ true) (some_eq found) ok in
          (
            subst IsSane (some_eq found) (read_caps-IsSane caps no_attrs (tt, (tt, omega arith))),
            (ground arith, ground arith),
          )
      | inr bad ↦ ground arith
    ]
