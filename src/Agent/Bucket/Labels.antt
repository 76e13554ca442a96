-- ===== src/Agent/Bucket/Labels.antt =====
-- The grouping labels on the metrics of a bucket.
use tailscale_metrics_discov.Common.{
  ◌≡◌, refl, sym, ◌∙◌, subst, List, [], ◌∷◌, some, arith, if◌then◌else◌, All, Option-cases, inl,
  inr, is_some, ◌⊎◌,
}
use tailscale_metrics_discov.Common.Result.{ok, Result-cases, bind_ok, ok_eq}
use tailscale_metrics_discov.Common.Text.{Text, ◌==◌, ==_iff}
use tailscale_metrics_discov.Common.Dict.{
  Dict, AllEntries, insert-AllEntries, lookup-AllEntries, lookup, insert, Distinct, Same,
}
use tailscale_metrics_discov.Agent.Bucket.{
  Metric, MetricFamily, MetricGroup, Bucket, Decoders, PushRequest, Method, post, set_label,
  set_labels, inject_metrics, inject_labels, replace_families, in_group, read_push, parse_push_body,
  pushed_group, push,
}
use tailscale_metrics_discov.Agent.Bucket.Push.{in_group_ok}
use tailscale_metrics_discov.Agent.Bucket.GroupKey.{
  ParsedGroupKey, parse_group_key, canonical_group_key,
}
use tailscale_metrics_discov.Agent.Bucket.GroupKey.Canonical.{canonical_iff}
use tailscale_metrics_discov.Agent.Bucket.GroupKey.Parse.{parse_group_key_sound}

-- A metric has the value of each grouping label.
abbrev pub Carries : Dict Text → Metric → Type 0
Carries labels m = (j v : Text) → lookup j labels ≡ some v → lookup j m.label ≡ some v

lookup-set_label :
    (k j v : Text) (ls : List (Text × Text))
    → lookup j (set_label k v ls) ≡ (if k == j then some v else lookup j ls)
unfolding lookup set_label
lookup-set_label k j v [] = refl
lookup-set_label k j v ((n, w) ∷ ls) =
    ground (arith, ==_iff k j, ==_iff n k, ==_iff n j, lookup-set_label k j v ls)

lookup-set_labels :
    (j : Text) (labels : Dict Text) (ls : List (Text × Text))
    → Distinct labels
    → lookup j (set_labels labels ls)
      ≡ (if is_some (lookup j labels) then lookup j labels else lookup j ls)
unfolding lookup set_labels
lookup-set_labels j [] ls d = refl
lookup-set_labels j ((k, v) ∷ labels) ls d = ground (
  arith,
  lookup-set_labels j labels (set_label k v ls) d.1,
  lookup-set_label k j v ls,
  ==_iff k j,
)

inject_metrics-Carries :
    (labels : Dict Text) (ms : List Metric)
    → Distinct labels
    → All (Carries labels) (inject_metrics labels ms)
unfolding inject_metrics
inject_metrics-Carries labels [] d = tt
inject_metrics-Carries labels (m ∷ ms) d =
    (λ j v h. lookup-set_labels j labels m.label d ∙ rw h, inject_metrics-Carries labels ms d)

-- Every family of a table carries the labels on each of its metrics.
abbrev pub FamilyCarries : Dict Text → Text → MetricFamily → Type 0
FamilyCarries labels n mf = All (Carries labels) mf.metric

abbrev pub AllCarry : Dict Text → Dict MetricFamily → Type 0
AllCarry labels = AllEntries (FamilyCarries labels)

inject_labels-AllCarry :
    (labels : Dict Text) (fs : Dict MetricFamily)
    → Distinct labels
    → AllCarry labels (inject_labels labels fs)
unfolding inject_labels
inject_labels-AllCarry labels [] d = tt
inject_labels-AllCarry labels ((n, mf) ∷ fs) d =
    (inject_metrics-Carries labels mf.metric d, inject_labels-AllCarry labels fs d)

replace_families-AllCarry :
    (labels : Dict Text) (pushed fs : Dict MetricFamily)
    → AllCarry labels pushed
    → AllCarry labels fs
    → AllCarry labels (replace_families pushed fs)
unfolding replace_families
replace_families-AllCarry labels [] fs h k = k
replace_families-AllCarry labels ((n, mf) ∷ pushed) fs h k =
    replace_families-AllCarry labels pushed (insert n mf fs) h.1
      (insert-AllEntries (FamilyCarries labels) n mf fs h.0 k)

-- Metrics that carry a label set carry any other form of it.
Carries-Same :
    (l m : Dict Text) (ms : List Metric) → Same l m → All (Carries l) ms → All (Carries m) ms
Carries-Same l m [] s h = tt
Carries-Same l m (x ∷ ms) s h = (λ j v e. h.0 j v (s j ∙ e), Carries-Same l m ms s h.1)

AllCarry-Same :
    (l m : Dict Text) (fs : Dict MetricFamily) → Same l m → AllCarry l fs → AllCarry m fs
AllCarry-Same l m [] s h = tt
AllCarry-Same l m ((n, mf) ∷ fs) s h =
    (Carries-Same l m mf.metric s h.0, AllCarry-Same l m fs s h.1)

-- A group lies under the canonical text of its labels, which all its metrics carry.
pub record GroupIsValid (k : Text) (g : MetricGroup) : Type 0 where
  pub distinct : Distinct g.labels
  pub keyed : canonical_group_key g.labels ≡ k
  pub carried : AllCarry g.labels g.families

abbrev pub IsValid : Bucket → Type 0
IsValid b = AllEntries GroupIsValid b.groups

-- A pushed table, under the key that was parsed.
record Read (key : ParsedGroupKey) (families : Dict MetricFamily) : Type 0 where
  distinct : Distinct key.labels
  keyed : canonical_group_key key.labels ≡ key.canonical
  carried : AllCarry key.labels families

read_push_sound :
    (d : Decoders) (r : PushRequest) (rest : Text) (p : ParsedGroupKey × Dict MetricFamily)
    → read_push d r rest ≡ ok p
    → Read p.0 p.1
unfolding read_push
read_push_sound d r rest p e =
    let (key, parsed, e') = bind_ok (in_group (parse_group_key rest)) _ e in
    let (fs, _, same) = bind_ok (parse_push_body d r) _ e' in
    let (labels, keyed) =
      parse_group_key_sound rest key (in_group_ok (parse_group_key rest) parsed) in
    subst (λ (q : ParsedGroupKey × Dict MetricFamily). Read q.0 q.1) (ok_eq same)
      (record {
        distinct = labels.distinct;
        keyed = sym keyed;
        carried = inject_labels-AllCarry key.labels fs labels.distinct;
      })

fresh_group :
    (key : ParsedGroupKey) (fs : Dict MetricFamily)
    → Read key fs
    → GroupIsValid key.canonical (record { labels = key.labels; families = fs })
fresh_group key fs h = record { distinct = h.distinct; keyed = h.keyed; carried = h.carried }

pushed_group-IsValid :
    (m : Method) (key : ParsedGroupKey) (fs : Dict MetricFamily) (b : Bucket)
    → IsValid b
    → Read key fs
    → GroupIsValid key.canonical (pushed_group m key fs b)
unfolding pushed_group
pushed_group-IsValid post key fs b v h = elim (Option-cases (lookup key.canonical b.groups)) [
  | inl e ↦ rw (e, pushed_group) (fresh_group key fs h)
  | inr (g, e) ↦
      let old = lookup-AllEntries GroupIsValid key.canonical b.groups v e in
      rw (e, pushed_group)
        (record {
          distinct = old.distinct;
          keyed = old.keyed;
          carried =
              replace_families-AllCarry g.labels fs g.families
                (AllCarry-Same key.labels g.labels fs
                  ((canonical_iff key.labels g.labels h.distinct old.distinct).0
                    (h.keyed ∙ sym old.keyed))
                  h.carried)
                old.carried;
        })
]
pushed_group-IsValid _ key fs b v h = fresh_group key fs h

-- Whatever is pushed, by PUT or by POST onto an existing group, every metric of every group carries
-- all the labels of its group, and the group lies under their canonical text, if that was so before;
-- and the request is accepted with 202, or refused with 400 and the bucket left as it was.
pub push-IsValid :
    (d : Decoders) (r : PushRequest) (rest : Text) (b : Bucket)
    → IsValid b
    → IsValid (push d r rest b).0
      × (((push d r rest b).1 ≡ 202) ⊎ (((push d r rest b).1 ≡ 400) × ((push d r rest b).0 ≡ b)))
unfolding push
push-IsValid d r rest b v = elim (Result-cases (read_push d r rest)) [
  | inl (x, e) ↦ rw (e, push) (v, inr (refl, refl))
  | inr (p, e) ↦
      rw (e, push)
        (
          insert-AllEntries GroupIsValid p.0.canonical _ b.groups
              (pushed_group-IsValid r.method p.0 p.1 b v (read_push_sound d r rest p e)) v,
          inl refl,
        )
]
