-- ===== src/Agent/Services/Orphan.antt =====
-- internal/agent/mgmt.go passes the requested name to `removeStatic`, `removeBucket` and `removeProxy`
-- without a look at what the name belongs to.
use tailscale_metrics_discov.Common.{
  ℕ, ◌≡◌, refl, true, false, Option, none, some, arith, [], if◌then◌else◌,
}
use tailscale_metrics_discov.Common.Text.{Text, ◌==◌, ==_self}
use tailscale_metrics_discov.Common.Dict.{Dict, lookup, has, lookup-delete}
use tailscale_metrics_discov.Config.{HealthcheckConfig}
use tailscale_metrics_discov.Agent.Error.{bucket_exists, bucket_not_found}
use tailscale_metrics_discov.Agent.Registry
use tailscale_metrics_discov.Agent.HealthChecker.Running.{IsValid, urls_of}
use tailscale_metrics_discov.Agent.HealthChecker.Polled.{unregister-Polls}
use tailscale_metrics_discov.Agent.Services.{
  Services, add_bucket, remove_static, remove_bucket, bucket_store_add, bucket_store_remove,
}
use tailscale_metrics_discov.Agent.Services.Consistent.{IsConsistent}

-- A static removal with the name of a bucket succeeds, takes the bucket off the registry, and leaves it
-- in the store, so that no bucket of that name can be added again.
pub remove_static-Orphan :
    (now then' : ℕ) (name : Text) (labels : Dict Text) (cfg : Option HealthcheckConfig)
    (s : Services)
    → IsConsistent s
    → has name s.buckets ≡ true
    → ((remove_static now name s).1 ≡ none)
      × ((lookup name (remove_static now name s).0.reg.entries ≡ none)
          × ((add_bucket then' name labels cfg (remove_static now name s).0).1
              ≡ some (bucket_exists name)))
unfolding remove_static add_bucket Registry.remove bucket_store_add
remove_static-Orphan now then' name labels cfg s c h =
    ground (arith, h, c name, lookup-delete name name s.reg.entries, ==_self name)

-- Removing a bucket under a name that no bucket has fails and leaves the registry as it was, and
-- still nothing is polled any more for a service of that name, while the other services are polled as
-- before. Asked of the health checker is the invariant that each of its calls keeps.
pub remove_bucket-Unchecked :
    (now : ℕ) (name : Text) (s : Services)
    → has name s.buckets ≡ false
    → IsValid s.hc
    → ((remove_bucket now name s).1 ≡ some (bucket_not_found name))
      × (((remove_bucket now name s).0.reg ≡ s.reg)
          × ((k : Text)
              → urls_of k (remove_bucket now name s).0.hc
                ≡ (if name == k then [] else urls_of k s.hc)))
unfolding remove_bucket bucket_store_remove
remove_bucket-Unchecked now name s h v =
    rw (h, remove_bucket) (refl, (refl, (unregister-Polls name s.hc v).1))
