-- ===== src/Agent/Auth.antt =====
-- internal/agent/server.go: who may call the agent's API. `WhoIs` of the local Tailscale daemon is an
-- argument: `none` is an error or no node, else the tags of the calling node.
use tailscale_metrics_discov.Common.{
  ◌≡◌, ◌↔◌, ◌⊎◌, inl, inr, refl, Bool, true, false, not, ◌&&◌, ◌||◌, List, [], ◌∷◌, ◌++◌, Option,
  none, some, is_empty, if◌then◌else◌, arith, Bool-cases, sym, subst,
}
use tailscale_metrics_discov.Common.Text.{Text, text, ◌==◌, ==_iff}

-- set[t], for the set of the allowed tags
unfoldable pub is_allowed : List Text → Text → Bool
is_allowed [] t = false
is_allowed (s ∷ set) t = s == t || is_allowed set t

unfoldable pub tags_intersect : List Text → List Text → Bool
unfolding is_allowed
tags_intersect [] allowed = false
tags_intersect (t ∷ node_tags) allowed =
    let rest = tags_intersect node_tags allowed in if is_allowed allowed t then true else rest

-- What the middleware reads of the server, and of the request.
pub record Policy : Type 0 where
  pub token : Text
  pub allowed_tags : List Text
  pub allow_anonymous : Bool

pub record Caller : Type 0 where
  pub node_tags : Option (List Text)
  pub authorization : Text

abbrev pub has_allowed_tag : Policy → Option (List Text) → Bool
has_allowed_tag p none = false
has_allowed_tag p (some tags) = tags_intersect tags p.allowed_tags

-- The Bearer token check, which comes last.
unfoldable pub token_accepted : Policy → Caller → Bool
token_accepted p r =
    if not (p.token == []) && not (r.authorization == text "Bearer " ++ p.token)
    then false
    else true

-- Whether the middleware calls the next handler; else it answers 401.
unfoldable pub auth_middleware : Policy → Caller → Bool
auth_middleware p r =
    if is_empty p.allowed_tags
    then token_accepted p r
    else if has_allowed_tag p r.node_tags
    then true
    else if p.token == []
    then (if p.allow_anonymous then true else false)
    else token_accepted p r

-- The request carries the configured token.
abbrev pub HasToken : Policy → Caller → Type 0
HasToken p r = ((p.token == []) ≡ false) × ((r.authorization == text "Bearer " ++ p.token) ≡ true)

-- No token is configured, and no tag is asked for or anonymous callers are welcome.
abbrev pub IsOpen : Policy → Type 0
IsOpen p = ((p.token == []) ≡ true) × ((is_empty p.allowed_tags || p.allow_anonymous) ≡ true)

-- A tag is in a list.
abbrev pub IsIn : Text → List Text → Type 0
IsIn t [] = ⊥
IsIn t (x ∷ xs) = (x ≡ t) ⊎ IsIn t xs

-- A tag that is in both lists.
pub record SharedTag (node_tags allowed : List Text) : Type 0 where
  pub tag : Text
  pub of_node : IsIn tag node_tags
  pub is_allowed : IsIn tag allowed

-- The daemon knows the node, which has one of the allowed tags.
abbrev pub HasAllowedTag : Policy → Option (List Text) → Type 0
HasAllowedTag p none = ⊥
HasAllowedTag p (some tags) = SharedTag tags p.allowed_tags

is_allowed_sound : (t : Text) (set : List Text) → is_allowed set t ≡ true → IsIn t set
unfolding is_allowed
is_allowed_sound t [] h = ground (arith, h)
is_allowed_sound t (s ∷ set) h = elim (Bool-cases (s == t)) [
  | inl e ↦ inl ((==_iff s t).0 e)
  | inr e ↦ inr (is_allowed_sound t set (ground (arith, e, h)))
]

is_allowed_complete : (t : Text) (set : List Text) → IsIn t set → is_allowed set t ≡ true
unfolding is_allowed
is_allowed_complete t [] h = elim h [ ]
is_allowed_complete t (s ∷ set) (inl e) = ground (arith, (==_iff s t).1 e)
is_allowed_complete t (s ∷ set) (inr h) = ground (arith, is_allowed_complete t set h)

tags_intersect_sound :
    (tags allowed : List Text) → tags_intersect tags allowed ≡ true → SharedTag tags allowed
unfolding tags_intersect
tags_intersect_sound [] allowed h = ground (arith, h)
tags_intersect_sound (t ∷ tags) allowed h = elim (Bool-cases (is_allowed allowed t)) [
  | inl e ↦ record { tag = t; of_node = inl refl; is_allowed = is_allowed_sound t allowed e }
  | inr e ↦
      let shared = tags_intersect_sound tags allowed (ground (arith, e, h)) in
      record { tag = shared.tag; of_node = inr shared.of_node; is_allowed = shared.is_allowed }
]

tags_intersect_complete :
    (t : Text) (tags allowed : List Text)
    → IsIn t tags
    → IsIn t allowed
    → tags_intersect tags allowed ≡ true
unfolding tags_intersect
tags_intersect_complete t [] allowed i h = elim i [ ]
tags_intersect_complete t (u ∷ tags) allowed (inl e) h =
    ground (arith, is_allowed_complete u allowed (subst (λ v. IsIn v allowed) (sym e) h))
tags_intersect_complete t (u ∷ tags) allowed (inr i) h =
    ground (arith, tags_intersect_complete t tags allowed i h)

has_allowed_tag_iff :
    (p : Policy) (tags : Option (List Text))
    → (has_allowed_tag p tags ≡ true) ↔ HasAllowedTag p tags
has_allowed_tag_iff p none = (λ h. ground (arith, h), λ h. ground (arith, h))
has_allowed_tag_iff p (some tags) = (
  tags_intersect_sound tags p.allowed_tags,
  λ h. tags_intersect_complete h.tag tags p.allowed_tags h.of_node h.is_allowed,
)

tags_intersect-nil : (tags : List Text) → tags_intersect tags [] ≡ false
unfolding tags_intersect
tags_intersect-nil [] = refl
tags_intersect-nil (t ∷ tags) = rw (tags_intersect-nil tags) refl

is_empty_nil : (ts : List Text) → is_empty ts ≡ true → ts ≡ []
is_empty_nil [] h = refl
is_empty_nil (t ∷ ts) h = ground arith

has_allowed_tag-nil :
    (p : Policy) (tags : Option (List Text))
    → is_empty p.allowed_tags ≡ true
    → has_allowed_tag p tags ≡ false
has_allowed_tag-nil p none h = refl
has_allowed_tag-nil p (some tags) h = rw (is_empty_nil p.allowed_tags h) (tags_intersect-nil tags)

auth_middleware-has_allowed_tag :
    (p : Policy) (r : Caller)
    → (auth_middleware p r ≡ true)
      ↔ ((has_allowed_tag p r.node_tags ≡ true) ⊎ (HasToken p r ⊎ IsOpen p))
unfolding auth_middleware token_accepted
auth_middleware-has_allowed_tag p r =
    let no_tags = has_allowed_tag-nil p r.node_tags in
    elim (Bool-cases (is_empty p.allowed_tags)) [
      | inl e ↦ (λ h. ground (arith, no_tags e, e, h), λ h. ground (arith, no_tags e, e, h))
      | inr e ↦ (λ h. ground (arith, e, h), λ h. ground (arith, e, h))
    ]

-- A call is let through exactly if the daemon knows its node and some tag is both one of the node's
-- and an allowed one, or it carries the configured token, or no token is configured and either no tag
-- is asked for or anonymous callers are allowed.
pub auth_middleware_iff :
    (p : Policy) (r : Caller)
    → (auth_middleware p r ≡ true) ↔ (HasAllowedTag p r.node_tags ⊎ (HasToken p r ⊎ IsOpen p))
auth_middleware_iff p r =
    let whole = auth_middleware-has_allowed_tag p r in
    let tagged = has_allowed_tag_iff p r.node_tags in
    (
      λ h. (elim (whole.0 h) [ inl t ↦ inl (tagged.0 t) | inr k ↦ inr k ]),
      λ h. whole.1 (elim h [ inl t ↦ inl (tagged.1 t) | inr k ↦ inr k ]),
    )
