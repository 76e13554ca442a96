-- ===== src/Agent/Routes/Tests.antt =====
-- A push to a concrete bucket: the theorem at work.
use tailscale_metrics_discov.Common.{◌≡◌, refl, [], ◌∷◌, some, if◌then◌else◌}
use tailscale_metrics_discov.Common.Text.{Text, text, ◌==◌, cut_at, cut_prefix}
use tailscale_metrics_discov.Common.Dict.{lookup}
use tailscale_metrics_discov.Agent.Registry.{new_registry}
use tailscale_metrics_discov.Agent.HealthChecker.{new_health_checker}
use tailscale_metrics_discov.Agent.Bucket.{Method, served_families}
use tailscale_metrics_discov.Agent.Services.{Services}
use tailscale_metrics_discov.Agent.Routes.{
  push_path, handle_push, scraped_name, handle_bucket_metrics,
}
use tailscale_metrics_discov.Agent.Routes.Isolation.{left_by, bucket_at, handle_push-scrape}
use tailscale_metrics_discov.Agent.Bucket.Push.{family_in}
use tailscale_metrics_discov.Agent.Bucket.Tests.{
  path, key, decoders, request, pushed_families, after_put, push_run, not_the_key,
}

abbrev services : Services
services = record {
  reg = new_registry 5;
  hc = new_health_checker;
  buckets = (text "jobs", after_put) ∷ [];
  proxies = [];
}

abbrev push_url : Text
push_url = text "/push/jobs//job/app/zone/b/rack/1"

abbrev metrics : Text
metrics = text "/bucket/jobs/metrics"

path_read : push_path push_url ≡ some (text "jobs", path)
unfolding text cut_at cut_prefix
path_read = refl

jobs_stored : lookup (text "jobs") services.buckets ≡ some after_put
unfolding lookup text ◌==◌
jobs_stored = refl

handle_push-scrape_example :
    ((handle_push decoders (request Method.post) push_url services).1 ≡ 202)
    × (family_in key.canonical
          (text "up")
          (bucket_at (text "jobs") (handle_push decoders (request Method.post) push_url services).0)
        ≡ left_by Method.post
            (lookup (text "up") pushed_families)
            (family_in key.canonical (text "up") after_put))
    × (lookup
          (text "other")
          (bucket_at
            (text "jobs")
            (handle_push decoders (request Method.post) push_url services).0).groups
        ≡ lookup (text "other") after_put.groups)
    × (handle_bucket_metrics Method.get metrics
          (handle_push decoders (request Method.post) push_url services).0
        ≡ (if text "jobs" == scraped_name (text "/bucket/") metrics
            then (
              200,
              some (
                  served_families (
                    bucket_at
                      (text "jobs")
                      (handle_push decoders (request Method.post) push_url services).0)),
            )
            else handle_bucket_metrics Method.get metrics services))
handle_push-scrape_example =
    handle_push-scrape decoders (request Method.post) push_url (text "jobs") path services after_put
      (key, pushed_families) (text "up") (text "other") metrics path_read jobs_stored push_run
      not_the_key
