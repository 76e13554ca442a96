-- ===== src/Agent/Routes.antt =====
-- internal/agent/server.go: the routes to the buckets and proxies. A path arrives as its bytes.
pub mod Isolation
pub mod Tests
use mathlib.Core.Option
use tailscale_metrics_discov.Common.{
  ℕ, Bool, true, false, List, [], ◌∷◌, ◌++◌, Option, none, some, or_else, if◌then◌else◌,
}
use tailscale_metrics_discov.Common.Text.{Text, text, ◌==◌, cut_at, cut_prefix, trim, trim_suffix}
use tailscale_metrics_discov.Common.Dict.{Dict, lookup, insert}
use tailscale_metrics_discov.Agent.Bucket.{
  Bucket, Decoders, Method, MetricFamily, PushRequest, push, delete_group, served_families,
}
use tailscale_metrics_discov.Agent.Proxy.{
  Proxy, Credentials, Upstream, Reply, serve_metrics, failed,
}
use tailscale_metrics_discov.Agent.Services.{Services}

-- strings.TrimPrefix
abbrev pub trim_prefix : Text → Text → Text
trim_prefix prefix s = or_else (cut_prefix prefix s) s

-- The bucket's name and the rest of the path, as `strings.SplitN` splits it.
abbrev pub push_path : Text → Option (Text × Text)
push_path path = cut_at b'/' (trim_prefix (text "/push/") path)

-- The method of a request decides what is done to its bucket.
unfoldable pub change_bucket : Decoders → PushRequest → Text → Bucket → Bucket × ℕ
change_bucket d r rest b = elim r.method [
  | Method.get ↦ (b, 405)
  | Method.put ↦ push d r rest b
  | Method.post ↦ push d r rest b
  | Method.del ↦ delete_group rest b
  | Method.another name ↦ (b, 405)
]

abbrev pub written : Text → Bucket × ℕ → Services → Services × ℕ
written name (b, code) s = (record s { buckets = insert name b s.buckets }, code)

unfoldable pub push_to : Decoders → PushRequest → Text → Text → Services → Services × ℕ
push_to d r name rest s = elim (lookup name s.buckets) [
  | none ↦ (s, 404)
  | some b ↦ written name (change_bucket d r rest b) s
]

unfoldable pub handle_push : Decoders → PushRequest → Text → Services → Services × ℕ
handle_push d r path s = elim (push_path path) [
  | none ↦ (s, 400)
  | some (name, rest) ↦ push_to d r name rest s
]

-- The name in a path such as /bucket/<name>/metrics.
unfoldable pub scraped_name : Text → Text → Text
scraped_name prefix path = trim b'/' (trim_suffix (text "/metrics") (trim_prefix prefix path))

unfoldable pub handle_bucket_metrics : Method → Text → Services → ℕ × Option (Dict MetricFamily)
handle_bucket_metrics Method.get path s =
    elim (lookup (scraped_name (text "/bucket/") path) s.buckets) [
      | none ↦ (404, none)
      | some b ↦ (200, some (served_families b))
    ]
handle_bucket_metrics _ path s = (405, none)

unfoldable pub handle_proxy_metrics :
    (Text → Credentials → Upstream) → Method → Text → Services → Reply
handle_proxy_metrics fetch Method.get path s =
    elim (lookup (scraped_name (text "/proxy/") path) s.proxies) [
      | none ↦ failed 404
      | some p ↦ serve_metrics fetch p
    ]
handle_proxy_metrics fetch _ path s = failed 405
