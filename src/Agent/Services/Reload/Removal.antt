-- ===== src/Agent/Services/Reload/Removal.antt =====
-- The first loop of `reloadConfigServices`: what it takes off the registry.
use mathlib.Core.Option
use tailscale_metrics_discov.Common.{
  ℕ, ◌≡◌, refl, sym, ◌∙◌, true, ◌&&◌, List, [], ◌∷◌, Option, none, some, arith, All, Option-cases,
  inl, inr, if◌then◌else◌,
}
use tailscale_metrics_discov.Common.Text.{Text, ◌==◌, ==_iff, ==_self}
use tailscale_metrics_discov.Common.Dict.{Dict, lookup, has, lookup-delete}
use tailscale_metrics_discov.Common.Sorting.{find_by, IsSorted, find_by-Above}
use tailscale_metrics_discov.Protocol.{ServiceEntry}
use tailscale_metrics_discov.Config.{BucketService}
use tailscale_metrics_discov.Agent.Registry
use tailscale_metrics_discov.Agent.Registry.{Registry, list, entry_name, sorted_entries, get}
use tailscale_metrics_discov.Agent.Registry.Order.{IsValid, sorted_entries_complete, shown}
use tailscale_metrics_discov.Agent.Services.{
  Services, remove_static, remove_bucket, remove_proxy, bucket_store_remove, proxy_store_remove,
}
use tailscale_metrics_discov.Agent.Services.Consistent.{
  IsConsistent, is_bucket, remove_bucket-IsConsistent, remove_proxy-IsConsistent,
}
use tailscale_metrics_discov.Agent.Services.Reload.{drop_service, drop_services}

-- What the loop leaves under a name: buckets that the configuration wants.
abbrev pub kept : Dict BucketService → Option ServiceEntry → Option ServiceEntry
kept desired none = none
kept desired (some e) = if is_bucket (some e) && has e.name desired then some e else none

drop_service-lookup :
    (now : ℕ) (desired : Dict BucketService) (e : ServiceEntry) (k : Text) (s : Services)
    → IsConsistent s
    → lookup e.name s.reg.entries ≡ some e
    → lookup k (drop_service now desired e.type e.name s).reg.entries
      ≡ (if e.name == k then kept desired (some e) else lookup k s.reg.entries)
unfolding drop_service remove_static remove_bucket remove_proxy Registry.remove bucket_store_remove
    proxy_store_remove
drop_service-lookup now desired e k s c h =
    ground (arith, h, c e.name, lookup-delete e.name k s.reg.entries, ==_iff e.name k)

drop_service-IsConsistent :
    (now : ℕ) (desired : Dict BucketService) (e : ServiceEntry) (s : Services)
    → IsConsistent s
    → lookup e.name s.reg.entries ≡ some e
    → IsConsistent (drop_service now desired e.type e.name s)
unfolding drop_service remove_static Registry.remove
drop_service-IsConsistent now desired e s c h k = ground (
  arith,
  h,
  c k,
  c e.name,
  lookup-delete e.name k s.reg.entries,
  ==_iff e.name k,
  remove_bucket-IsConsistent now e.name s c k,
  remove_proxy-IsConsistent now e.name s c k,
)

-- The registry holds each entry of a list under its name.
abbrev Present : Services → List ServiceEntry → Type 0
Present s = All (λ e. lookup e.name s.reg.entries ≡ some e)

drop_service-Present :
    (now : ℕ) (desired : Dict BucketService) (e : ServiceEntry) (es : List ServiceEntry)
    (s : Services)
    → IsConsistent s
    → lookup e.name s.reg.entries ≡ some e
    → find_by entry_name e.name es ≡ none
    → Present s es
    → Present (drop_service now desired e.type e.name s) es
unfolding find_by
drop_service-Present now desired e [] s c h f p = tt
drop_service-Present now desired e (x ∷ es) s c h f p = (
  ground (
    arith,
    f,
    p.0,
    drop_service-lookup now desired e x.name s c h,
    ==_iff e.name x.name,
    ==_iff x.name e.name,
  ),
  drop_service-Present now desired e es s c h (ground (arith, f)) p.1,
)

-- What stands under a name after the loop over a list of present entries.
left_over : Dict BucketService → Text → List ServiceEntry → Services → Option ServiceEntry
left_over desired k es s = elim (find_by entry_name k es) [
  | none ↦ lookup k s.reg.entries
  | some e ↦ kept desired (some e)
]

drop_services-lookup :
    (now : ℕ) (desired : Dict BucketService) (es : List ServiceEntry) (s : Services)
    → IsConsistent s
    → IsSorted entry_name es
    → Present s es
    → IsConsistent (drop_services now desired es s)
      × ((k : Text)
          → lookup k (drop_services now desired es s).reg.entries ≡ left_over desired k es s)
unfolding drop_services left_over find_by
drop_services-lookup now desired [] s c o p = (c, λ k. refl)
drop_services-lookup now desired (e ∷ es) s c o p =
    let absent = find_by-Above entry_name e.name es o.0 in
    let t = drop_service now desired e.type e.name s in
    let next = drop_service-lookup now desired e in
    let (consistent, later) =
      drop_services-lookup now desired es t (drop_service-IsConsistent now desired e s c p.0) o.1
        (drop_service-Present now desired e es s c p.0 absent p.1) in
    (consistent, λ k. ground (arith, absent, later k, next k s c p.0, ==_iff e.name k))

Present-list :
    (s : Services) (es : List ServiceEntry)
    → IsSorted entry_name es
    → ((k : Text) (x : ServiceEntry)
        → find_by entry_name k es ≡ some x
        → lookup k s.reg.entries ≡ some x)
    → Present s es
unfolding find_by
Present-list s [] o h = tt
Present-list s (e ∷ es) o h = (
  h e.name e (ground (arith, ==_self e.name)),
  Present-list s es o.1
      λ k x f. h k x (ground (arith, f, find_by-Above entry_name e.name es o.0, ==_iff e.name k)),
)

map-shown-true : (o : Option ServiceEntry) → Option.map (shown true) o ≡ o
map-shown-true none = refl
map-shown-true (some e) = refl

-- After the loop over all services the registry holds, under each name, the bucket that stood there
-- if the configuration wants it, and else nothing.
pub drop_services-kept :
    (now : ℕ) (desired : Dict BucketService) (s : Services)
    → IsConsistent s
    → IsValid s.reg
    → IsConsistent (drop_services now desired (list s.reg) s)
      × ((k : Text)
          → lookup k (drop_services now desired (list s.reg) s).reg.entries
            ≡ kept desired (lookup k s.reg.entries))
unfolding left_over get
drop_services-kept now desired s c v =
    let (sorted, found) = sorted_entries_complete true s.reg v in
    let same = λ (k : Text). found k ∙ map-shown-true (lookup k s.reg.entries) in
    let (consistent, left) =
      drop_services-lookup now desired (list s.reg) s c sorted
        (Present-list s (list s.reg) sorted λ k x f. sym (same k) ∙ f) in
    (
      consistent,
      λ k. elim (Option-cases (lookup k s.reg.entries)) [
        | inl e ↦ ground (arith, left k, same k, e)
        | inr (x, e) ↦ ground (arith, left k, same k, e)
      ],
    )
