-- ===== src/Agent/Services/Tests.antt =====
-- Services that come and go on a concrete agent: the theorems at work.
use tailscale_metrics_discov.Common.{
  ◌≡◌, ◌≢◌, refl, true, false, [], ◌∷◌, none, some, arith, pos, if◌then◌else◌,
}
use tailscale_metrics_discov.Common.Text.{Text, text, ◌==◌}
use tailscale_metrics_discov.Common.Dict.{lookup, has, insert}
use tailscale_metrics_discov.Agent.Error.{bucket_exists, bucket_not_found}
use tailscale_metrics_discov.Agent.Registry.{new_registry, add}
use tailscale_metrics_discov.Agent.HealthChecker.{start, new_health_checker, register}
use tailscale_metrics_discov.Agent.Services.{
  Services, add_bucket, add_static, remove_static, remove_bucket, bucket_store_add,
  bucket_service_entry, static_entry,
}
use tailscale_metrics_discov.Agent.Services.Consistent.{IsConsistent}
use tailscale_metrics_discov.Agent.Services.Reach.{
  Reach, here, later, bucket_added, static_added, Reach-IsConsistent,
}
use tailscale_metrics_discov.Config.{HealthcheckConfig}
use tailscale_metrics_discov.Agent.HealthChecker.Running.{IsValid, urls_of}
use tailscale_metrics_discov.Agent.HealthChecker.Polled.{register-Polls}
use tailscale_metrics_discov.Agent.Services.Orphan.{remove_static-Orphan, remove_bucket-Unchecked}

abbrev fresh : Services
fresh = record { reg = new_registry 5; hc = start new_health_checker; buckets = []; proxies = [] }

fresh-IsConsistent : IsConsistent fresh
unfolding new_registry lookup
fresh-IsConsistent k = (refl, refl)

abbrev with_bucket : Services
with_bucket = (add_bucket 6 (text "jobs") [] none fresh).0

abbrev with_both : Services
with_both = (add_static 7 (text "web") (text "10.0.0.1:9100" ∷ []) [] none with_bucket).0

two_calls : Reach fresh with_both
two_calls =
    later _ _ (later _ _ here (bucket_added 6 (text "jobs") [] none fresh))
      (static_added 7 (text "web") (text "10.0.0.1:9100" ∷ []) [] none with_bucket)

Reach-IsConsistent_example : IsConsistent with_both
Reach-IsConsistent_example = Reach-IsConsistent fresh with_both two_calls fresh-IsConsistent

has_jobs : has (text "jobs") with_both.buckets ≡ true
unfolding add_bucket add_static bucket_store_add bucket_service_entry static_entry add lookup insert
    register new_registry text ◌==◌
has_jobs = refl

no_web : has (text "web") with_both.buckets ≡ false
unfolding add_bucket add_static bucket_store_add bucket_service_entry static_entry add lookup insert
    register new_registry text ◌==◌
no_web = refl

remove_static-Orphan_example :
    ((remove_static 8 (text "jobs") with_both).1 ≡ none)
    × ((lookup (text "jobs") (remove_static 8 (text "jobs") with_both).0.reg.entries ≡ none)
        × ((add_bucket 9 (text "jobs") [] none (remove_static 8 (text "jobs") with_both).0).1
            ≡ some (bucket_exists (text "jobs"))))
remove_static-Orphan_example =
    remove_static-Orphan 8 9 (text "jobs") [] none with_both Reach-IsConsistent_example has_jobs

-- The static service is polled, until a removal of a bucket of its name fails.
abbrev check : HealthcheckConfig
check = record { url = text "http://10.0.0.1:9100/"; interval = pos 0; timeout = pos 0 }

fresh-Valid : IsValid fresh.hc
unfolding lookup start
fresh-Valid = record {
  owned = tt;
  numbered = (λ k i e. ground (arith, e), λ j k i e f. ground (arith, e));
  idle = λ e. refl;
}

check_named : check.url ≢ []
unfolding text
check_named e = ground arith

abbrev polling : Services
polling = record with_both {
  hc = (register 7 (text "web") (some check) (fresh.hc, with_both.reg)).0;
}

polling-IsValid : IsValid polling.hc
unfolding start
polling-IsValid =
    (register-Polls 7 (text "web") check fresh.hc with_both.reg fresh-Valid refl check_named).0

remove_bucket-Unchecked_example :
    ((remove_bucket 8 (text "web") polling).1 ≡ some (bucket_not_found (text "web")))
    × (((remove_bucket 8 (text "web") polling).0.reg ≡ polling.reg)
        × ((k : Text)
            → urls_of k (remove_bucket 8 (text "web") polling).0.hc
              ≡ (if text "web" == k then [] else urls_of k polling.hc)))
remove_bucket-Unchecked_example =
    remove_bucket-Unchecked 8 (text "web") polling no_web polling-IsValid
