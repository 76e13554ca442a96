-- ===== src/Agent/Services/Reload/Desired.antt =====
-- The buckets that a reload wants.
use mathlib.Core.List.{append_assoc, append-nil}
use tailscale_metrics_discov.Common.{
  ◌≡◌, refl, sym, ◌∙◌, false, List, [], ◌∷◌, ◌++◌, none, some, arith, All,
}
use tailscale_metrics_discov.Common.Text.{Text, ==_iff}
use tailscale_metrics_discov.Common.Dict.{Dict, lookup, insert, has, lookup-insert}
use tailscale_metrics_discov.Common.Sorting.{find_by, DistinctBy}
use tailscale_metrics_discov.Config.{BucketService}
use tailscale_metrics_discov.Agent.Services.Reload.{desired_buckets}
use tailscale_metrics_discov.Agent.Services.Reload.Buckets.{bucket_name}
use tailscale_metrics_discov.Agent.Services.Reload.Loops.{names_of}

insert-undesired :
    (bc : BucketService) (bcs : List BucketService) (d : Dict BucketService)
    → find_by bucket_name bc.name bcs ≡ none
    → All (λ x. has x.name d ≡ false) bcs
    → All (λ x. has x.name (insert bc.name bc d) ≡ false) bcs
unfolding find_by
insert-undesired bc [] d f h = tt
insert-undesired bc (x ∷ bcs) d f h = (
  ground (
    arith,
    f,
    h.0,
    lookup-insert bc.name x.name bc d,
    ==_iff bc.name x.name,
    ==_iff x.name bc.name,
  ),
  insert-undesired bc bcs d (ground (arith, f)) h.1,
)

-- Names that are not desired yet are desired in their order, each as it is configured.
pub desired_buckets-distinct :
    (bcs : List BucketService) (d : Dict BucketService) (order : List Text)
    → DistinctBy bucket_name bcs
    → All (λ bc. has bc.name d ≡ false) bcs
    → ((desired_buckets bcs d order).1 ≡ order ++ names_of bcs)
      × ((k : Text)
          → lookup k (desired_buckets bcs d order).0
            ≡ (elim (find_by bucket_name k bcs) [ none ↦ lookup k d | some bc ↦ some bc ]))
unfolding desired_buckets find_by
desired_buckets-distinct [] d order u h = (sym (append-nil order), λ k. refl)
desired_buckets-distinct (bc ∷ bcs) d order u h =
    let (names, found) =
      desired_buckets-distinct bcs (insert bc.name bc d) (order ++ bc.name ∷ []) u.1
        (insert-undesired bc bcs d u.0 h.1) in
    rw (h.0, desired_buckets)
      (
        names ∙ append_assoc order (bc.name ∷ []) (names_of bcs),
        λ k. found k ∙ ground (arith, u.0, lookup-insert bc.name k bc d, ==_iff bc.name k),
      )

abbrev pub no_buckets : Dict BucketService
no_buckets = []

pub none_desired : (bcs : List BucketService) → All (λ bc. has bc.name no_buckets ≡ false) bcs
unfolding lookup
none_desired [] = tt
none_desired (bc ∷ bcs) = (refl, none_desired bcs)
