-- ===== src/Agent/Bucket/Push.antt =====
-- What pushes and deletions do to the groups of a bucket.
use tailscale_metrics_discov.Common.{
  ◌≡◌, ◌≢◌, refl, subst, Bool, true, false, List, [], ◌∷◌, Option, none, some, arith, if◌then◌else◌,
  Option-cases, inl, inr, is_some,
}
use tailscale_metrics_discov.Common.Result.{Result, ok, err, bind_ok, ok_eq}
use tailscale_metrics_discov.Common.Text.{Text, ==_iff, ==_self}
use tailscale_metrics_discov.Common.Dict.{
  Dict, lookup, insert, Distinct, insert-Distinct, lookup-insert, lookup-delete,
}
use tailscale_metrics_discov.Agent.Bucket.{
  MetricFamily, MetricGroup, Bucket, Decoders, PushRequest, Method, post, parse_push_body,
  push_body_reader, decode_body, or_err, decoding_metrics, in_group, collect_families,
  inject_labels, replace_families, read_push, pushed_group, push, delete_group,
}
use tailscale_metrics_discov.Agent.Bucket.GroupKey.{ParsedGroupKey, GroupError, parse_group_key}

lookup-replace_families :
    (n : Text) (pushed fs : Dict MetricFamily)
    → Distinct pushed
    → lookup n (replace_families pushed fs)
      ≡ (if is_some (lookup n pushed) then lookup n pushed else lookup n fs)
unfolding lookup replace_families
lookup-replace_families n [] fs d = refl
lookup-replace_families n ((k, mf) ∷ pushed) fs d = ground (
  arith,
  lookup-replace_families n pushed (insert k mf fs) d.1,
  lookup-insert k n mf fs,
  ==_iff k n,
)

collect_families-Distinct :
    (ms : List MetricFamily) (fs : Dict MetricFamily)
    → Distinct fs
    → Distinct (collect_families fs ms)
unfolding collect_families
collect_families-Distinct [] fs d = d
collect_families-Distinct (mf ∷ ms) fs d = elim (Option-cases (lookup mf.name fs)) [
  | inl e ↦
      rw e (collect_families-Distinct ms (insert mf.name mf fs) (insert-Distinct mf.name mf fs d))
  | inr (old, e) ↦ rw e (collect_families-Distinct ms _ (insert-Distinct mf.name _ fs d))
]

lookup-inject_labels-none :
    (n : Text) (labels : Dict Text) (fs : Dict MetricFamily)
    → lookup n fs ≡ none
    → lookup n (inject_labels labels fs) ≡ none
unfolding lookup inject_labels
lookup-inject_labels-none n labels [] h = refl
lookup-inject_labels-none n labels ((k, mf) ∷ fs) h =
    ground (arith, lookup-inject_labels-none n labels fs)

inject_labels-Distinct :
    (labels : Dict Text) (fs : Dict MetricFamily) → Distinct fs → Distinct (inject_labels labels fs)
unfolding inject_labels
inject_labels-Distinct labels [] d = tt
inject_labels-Distinct labels ((k, mf) ∷ fs) d =
    (lookup-inject_labels-none k labels fs d.0, inject_labels-Distinct labels fs d.1)

read_push-Distinct :
    (d : Decoders) (r : PushRequest) (rest : Text) (p : ParsedGroupKey × Dict MetricFamily)
    → read_push d r rest ≡ ok p
    → Distinct p.1
unfolding read_push parse_push_body
read_push-Distinct d r rest p e =
    let (key, _, e') = bind_ok (in_group (parse_group_key rest)) _ e in
    let (fs, parsed, same) = bind_ok (parse_push_body d r) _ e' in
    let (body, _, p') = bind_ok (push_body_reader d r) _ parsed in
    let (ms, _, same') = bind_ok (or_err (decode_body d r body) decoding_metrics) _ p' in
    subst (λ (q : ParsedGroupKey × Dict MetricFamily). Distinct q.1) (ok_eq same)
      (inject_labels-Distinct key.labels fs
        (subst Distinct (ok_eq same') (collect_families-Distinct ms [] tt)))

-- The family of a name in a group, if both are there.
abbrev pub families_of : Option MetricGroup → Dict MetricFamily
families_of none = []
families_of (some g) = g.families

abbrev pub family_in : Text → Text → Bucket → Option MetricFamily
family_in k n b = lookup n (families_of (lookup k b.groups))

abbrev pub is_post : Method → Bool
is_post post = true
is_post _ = false

-- What a name stands for in the group that a push leaves.
pushed_group-lookup :
    (m : Method) (key : ParsedGroupKey) (fs : Dict MetricFamily) (b : Bucket) (n : Text)
    → Distinct fs
    → lookup n (pushed_group m key fs b).families ≡ (
        if is_some (lookup n fs)
        then lookup n fs
        else if is_post m
        then family_in key.canonical n b
        else none)
unfolding pushed_group
pushed_group-lookup post key fs b n d = elim (Option-cases (lookup key.canonical b.groups)) [
  | inl e ↦ rw (e, pushed_group) (unfold lookup in ground arith)
  | inr (g, e) ↦ rw (e, pushed_group) (lookup-replace_families n fs g.families d)
]
pushed_group-lookup _ key fs b n d = ground arith

-- An accepted push answers 202, touches no group but the one that its path names, and leaves there
-- for each family name what was pushed, or, with POST and if nothing was pushed under the name, what
-- was there.
pub push_accepted :
    (d : Decoders) (r : PushRequest) (rest : Text) (b : Bucket)
    (p : ParsedGroupKey × Dict MetricFamily) (k n : Text)
    → read_push d r rest ≡ ok p
    → k ≢ p.0.canonical
    → ((push d r rest b).1 ≡ 202)
      × (lookup k (push d r rest b).0.groups ≡ lookup k b.groups)
      × (family_in p.0.canonical n (push d r rest b).0 ≡ (
          if is_some (lookup n p.1)
          then lookup n p.1
          else if is_post r.method
          then family_in p.0.canonical n b
          else none))
unfolding push
push_accepted d r rest b p k n h ne = (
  rw (h, push),
  rw (h, push)
      (ground (
        arith,
        lookup-insert p.0.canonical k (pushed_group r.method p.0 p.1 b) b.groups,
        ==_iff p.0.canonical k,
      )),
  rw (h, push)
      (rw
        (
          lookup-insert p.0.canonical p.0.canonical (pushed_group r.method p.0 p.1 b) b.groups,
          ==_self p.0.canonical,
        )
        (pushed_group-lookup r.method p.0 p.1 b n (read_push-Distinct d r rest p h))),
)

pub in_group_ok : {A : Type 0} (r : Result GroupError A) {a : A} → in_group r ≡ ok a → r ≡ ok a
in_group_ok (ok a) e = cc
in_group_ok (err x) e = cc

read_push-parse_group_key :
    (d : Decoders) (r : PushRequest) (rest : Text) (p : ParsedGroupKey × Dict MetricFamily)
    → read_push d r rest ≡ ok p
    → parse_group_key rest ≡ ok p.0
unfolding read_push
read_push-parse_group_key d r rest p e =
    let (key, parsed, e') = bind_ok (in_group (parse_group_key rest)) _ e in
    let (fs, _, same) = bind_ok (parse_push_body d r) _ e' in
    subst (λ (q : ParsedGroupKey × Dict MetricFamily). parse_group_key rest ≡ ok q.0) (ok_eq same)
      (in_group_ok (parse_group_key rest) parsed)

pub delete_group_accepted :
    (d : Decoders) (r : PushRequest) (rest : Text) (b : Bucket)
    (p : ParsedGroupKey × Dict MetricFamily) (k : Text)
    → read_push d r rest ≡ ok p
    → k ≢ p.0.canonical
    → ((delete_group rest b).1 ≡ 202)
      × (lookup k (delete_group rest b).0.groups ≡ lookup k b.groups)
      × (lookup p.0.canonical (delete_group rest b).0.groups ≡ none)
unfolding delete_group
delete_group_accepted d r rest b p k h ne =
    let parsed = read_push-parse_group_key d r rest p h in
    (
      rw (parsed, delete_group) refl,
      rw (parsed, delete_group)
          (ground (arith, lookup-delete p.0.canonical k b.groups, ==_iff p.0.canonical k)),
      rw (parsed, delete_group)
          (ground
            (arith, lookup-delete p.0.canonical p.0.canonical b.groups, ==_self p.0.canonical)),
    )
