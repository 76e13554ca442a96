-- ===== src/Agent/Bucket/GroupKey/Parse.antt =====
-- What `parseGroupKey` accepts.
use tailscale_metrics_discov.Common.{
  ◌≡◌, ◌≢◌, ◌↔◌, refl, Bool, true, false, List, [], ◌∷◌, none, some, arith, eqb, not, length, ◌%◌,
}
use tailscale_metrics_discov.Common.Result.{ok, fail_if, bind_ok, ok_eq}
use tailscale_metrics_discov.Common.Text.{Text, text, ==_iff, split, trim}
use tailscale_metrics_discov.Common.Dict.{
  Dict, lookup, insert, Distinct, Same, insert-Distinct, lookup-insert,
}
use tailscale_metrics_discov.Agent.Bucket.GroupKey.{
  ParsedGroupKey, bad_path, odd_path, parse_pair, parse_pairs, parse_group_key, canonical_group_key,
  is_job_path,
}
use tailscale_metrics_discov.Agent.Bucket.GroupKey.Canonical.{canonical_iff}

-- The labels of a key: each name once, none empty, and a job that is not empty.
pub record IsLabelSet (labels : Dict Text) : Type 0 where
  pub distinct : Distinct labels
  pub named : lookup [] labels ≡ none
  pub job : (v : Text) × (lookup (text "job") labels ≡ some v) × (v ≢ [])

-- What the first pair must be.
abbrev IsFirst : Bool → Text × Text → Type 0
IsFirst true p = (p.0 ≡ text "job") × (p.1 ≢ [])
IsFirst false p = Unit

parse_pair_sound :
    (first : Bool) (n v : Text) (labels : Dict Text) (p : Text × Text)
    → parse_pair first n v labels ≡ ok p
    → IsFirst first p × (p.0 ≢ []) × (lookup p.0 labels ≡ none)
unfolding parse_pair
parse_pair_sound true n v labels p e =
    ground (arith, ==_iff p.0 (text "job"), ==_iff p.0 [], ==_iff p.1 [])
parse_pair_sound false n v labels p e = ground (arith, ==_iff p.0 [])

-- What the loop keeps of its map: each name once, and none empty.
abbrev IsNamed : Dict Text → Type 0
IsNamed labels = Distinct labels × (lookup [] labels ≡ none)

insert-IsNamed :
    (k v : Text) (labels : Dict Text) → k ≢ [] → IsNamed labels → IsNamed (insert k v labels)
insert-IsNamed k v labels h i =
    (insert-Distinct k v labels i.0, ground (arith, lookup-insert k [] v labels, ==_iff k []))

parse_pairs_keeps :
    (parts : List Text) (first : Bool) (labels l : Dict Text)
    → IsNamed labels
    → parse_pairs first parts labels ≡ ok l
    → IsNamed l × ((k v : Text) → lookup k labels ≡ some v → lookup k l ≡ some v)
unfolding parse_pairs
parse_pairs_keeps [] first labels l i e = (ground arith, λ k v h. ground arith)
parse_pairs_keeps (n ∷ []) first labels l i e = (ground arith, λ k v h. ground arith)
parse_pairs_keeps (n ∷ v ∷ parts) first labels l i e =
    let (p, parsed, rest) = bind_ok (parse_pair first n v labels) _ e in
    let (_, named, fresh) = parse_pair_sound first n v labels p parsed in
    let (kept, later) =
      parse_pairs_keeps parts false (insert p.0 p.1 labels) l
        (insert-IsNamed p.0 p.1 labels named i) rest in
    (kept, λ k w h. later k w (ground (arith, lookup-insert p.0 k p.1 labels, ==_iff p.0 k)))

first_pair_job :
    (parts : List Text) (l : Dict Text)
    → is_job_path parts ≡ true
    → parse_pairs true parts [] ≡ ok l
    → (v : Text) × (lookup (text "job") l ≡ some v) × (v ≢ [])
unfolding parse_pairs
first_pair_job [] l j e = cc
first_pair_job (n ∷ []) l j e = cc
first_pair_job (n ∷ v ∷ parts) l j e =
    let (p, parsed, rest) = bind_ok (parse_pair true n v []) _ e in
    let (job, named, _) = parse_pair_sound true n v [] p parsed in
    let (_, later) =
      parse_pairs_keeps parts false (insert p.0 p.1 []) l
        (insert-IsNamed p.0 p.1 [] named (tt, unfold lookup in refl)) rest in
    (
      p.1,
      later (text "job") p.1
          (ground (arith, lookup-insert p.0 (text "job") p.1 [], ==_iff p.0 (text "job"))),
      job.1,
    )

not_failed : {E : Type 0} (b : Bool) (x : E) → fail_if (not b) x ≡ ok tt → b ≡ true
not_failed true x h = refl
not_failed false x h = cc

-- Every accepted path names a job that is not empty, no label name is empty or given twice, and the
-- key is the canonical text of these labels.
pub parse_group_key_sound :
    (rest : Text) (key : ParsedGroupKey)
    → parse_group_key rest ≡ ok key
    → IsLabelSet key.labels × (key.canonical ≡ canonical_group_key key.labels)
unfolding parse_group_key
parse_group_key_sound rest key e =
    let parts : List Text = split b'/' (trim b'/' rest) in
    let (_, path, e') = bind_ok (fail_if (not (is_job_path parts)) bad_path) _ e in
    let (_, even, e'') = bind_ok (fail_if (not (eqb (length parts % 2) 0)) odd_path) _ e' in
    let (l, parsed, same) = bind_ok (parse_pairs true parts []) _ e'' in
    let (named, _) = parse_pairs_keeps parts true [] l (tt, unfold lookup in refl) parsed in
    let job = first_pair_job parts l (not_failed (is_job_path parts) bad_path path) parsed in
    let key_eq = ok_eq same in
    rw (← key_eq) (record { distinct = named.0; named = named.1; job = job }, refl)

-- Two accepted paths fall into one metric group exactly when they give the same labels, in whatever
-- order and encoding.
pub parse_group_key_iff :
    (a b : Text) (key other : ParsedGroupKey)
    → parse_group_key a ≡ ok key
    → parse_group_key b ≡ ok other
    → (key.canonical ≡ other.canonical) ↔ Same key.labels other.labels
parse_group_key_iff a b key other p q =
    let (left, key_eq) = parse_group_key_sound a key p in
    let (right, other_eq) = parse_group_key_sound b other q in
    rw (key_eq, other_eq) (canonical_iff key.labels other.labels left.distinct right.distinct)
