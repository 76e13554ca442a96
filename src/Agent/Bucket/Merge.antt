-- ===== src/Agent/Bucket/Merge.antt =====
-- `serveMetrics`: what a scrape of a bucket hands to the encoder of its groups.
use mathlib.Core.List.{append_assoc, append-nil}
use tailscale_metrics_discov.Common.{
  ◌≡◌, sym, ◌∙◌, List, [], ◌∷◌, ◌++◌, Option, none, some, arith, if◌then◌else◌, Option-cases, inl,
  inr,
}
use tailscale_metrics_discov.Common.Text.{Text, ◌==◌, ==_iff}
use tailscale_metrics_discov.Common.Dict.{Dict, lookup, Distinct, insert-Distinct, lookup-insert}
use tailscale_metrics_discov.Agent.Bucket.{
  Metric, MetricFamily, MetricGroup, Bucket, merge_family, merge_families, merge_groups,
  served_families,
}

abbrev pub metrics_of : Option MetricFamily → List Metric
metrics_of none = []
metrics_of (some mf) = mf.metric

-- The metrics under one family name, in a table and in all groups of a bucket.
abbrev pub table_metrics : Text → Dict MetricFamily → List Metric
table_metrics n [] = []
table_metrics n ((name, mf) ∷ fs) = (if name == n then mf.metric else []) ++ table_metrics n fs

abbrev pub bucket_metrics : Text → Dict MetricGroup → List Metric
bucket_metrics n [] = []
bucket_metrics n ((k, g) ∷ gs) = table_metrics n g.families ++ bucket_metrics n gs

merge_family-metrics :
    (n name : Text) (mf : MetricFamily) (merged : Dict MetricFamily)
    → metrics_of (lookup n (merge_family name mf merged))
      ≡ metrics_of (lookup n merged) ++ (if name == n then mf.metric else [])
unfolding merge_family
merge_family-metrics n name mf merged = elim (Option-cases (lookup name merged)) [
  | inl e ↦
      rw (e, merge_family)
        (rw (lookup-insert name n mf merged)
          (ground (arith, ==_iff name n, append-nil (metrics_of (lookup n merged)))))
  | inr (old, e) ↦
      rw (e, merge_family)
        (rw (lookup-insert name n (record old { metric = old.metric ++ mf.metric }) merged)
          (ground (arith, ==_iff name n, append-nil (metrics_of (lookup n merged)))))
]

merge_families-metrics :
    (n : Text) (fs merged : Dict MetricFamily)
    → metrics_of (lookup n (merge_families fs merged))
      ≡ metrics_of (lookup n merged) ++ table_metrics n fs
unfolding merge_families
merge_families-metrics n [] merged = sym (append-nil _)
merge_families-metrics n ((name, mf) ∷ fs) merged =
    merge_families-metrics n fs (merge_family name mf merged)
    ∙ rw (merge_family-metrics n name mf merged) (search append_assoc)

merge_groups-metrics :
    (n : Text) (gs : Dict MetricGroup) (merged : Dict MetricFamily)
    → metrics_of (lookup n (merge_groups gs merged))
      ≡ metrics_of (lookup n merged) ++ bucket_metrics n gs
unfolding merge_groups
merge_groups-metrics n [] merged = sym (append-nil _)
merge_groups-metrics n ((k, g) ∷ gs) merged =
    merge_groups-metrics n gs (merge_families g.families merged)
    ∙ rw (merge_families-metrics n g.families merged) (search append_assoc)

merge_family-Distinct :
    (name : Text) (mf : MetricFamily) (merged : Dict MetricFamily)
    → Distinct merged
    → Distinct (merge_family name mf merged)
unfolding merge_family
merge_family-Distinct name mf merged d = elim (Option-cases (lookup name merged)) [
  | inl e ↦ rw (e, merge_family) (insert-Distinct name mf merged d)
  | inr (old, e) ↦ rw (e, merge_family) (insert-Distinct name _ merged d)
]

merge_families-Distinct :
    (fs merged : Dict MetricFamily) → Distinct merged → Distinct (merge_families fs merged)
unfolding merge_families
merge_families-Distinct [] merged d = d
merge_families-Distinct ((name, mf) ∷ fs) merged d =
    merge_families-Distinct fs _ (merge_family-Distinct name mf merged d)

merge_groups-Distinct :
    (gs : Dict MetricGroup) (merged : Dict MetricFamily)
    → Distinct merged
    → Distinct (merge_groups gs merged)
unfolding merge_groups
merge_groups-Distinct [] merged d = d
merge_groups-Distinct ((k, g) ∷ gs) merged d =
    merge_groups-Distinct gs _ (merge_families-Distinct g.families merged d)

-- Of the families that a scrape merges, before it encodes any: each name is there once, and under it are
-- exactly the metrics that the groups hold under it, group after group.
pub served_families_complete :
    (b : Bucket)
    → Distinct (served_families b)
      × ((n : Text) → metrics_of (lookup n (served_families b)) ≡ bucket_metrics n b.groups)
unfolding served_families
served_families_complete b =
    (merge_groups-Distinct b.groups [] tt, λ n. unfold lookup in merge_groups-metrics n b.groups [])
