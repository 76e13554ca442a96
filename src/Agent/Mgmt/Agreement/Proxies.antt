-- ===== src/Agent/Mgmt/Agreement/Proxies.antt =====
-- What the calls that add and remove services do to the store of the proxies.
use tailscale_metrics_discov.Common.{ℕ, ◌≡◌, List, Option, none, arith, if◌then◌else◌}
use tailscale_metrics_discov.Common.Text.{Text, ◌==◌}
use tailscale_metrics_discov.Common.Dict.{Dict, lookup, lookup-delete}
use tailscale_metrics_discov.Config.{HealthcheckConfig}
use tailscale_metrics_discov.Agent.Services.{
  Services, add_static, add_bucket, remove_bucket, remove_proxy, proxy_store_remove,
}

pub add_static-proxies :
    (now : ℕ) (name : Text) (targets : List Text) (labels : Dict Text)
    (cfg : Option HealthcheckConfig) (s : Services)
    → (add_static now name targets labels cfg s).0.proxies ≡ s.proxies
unfolding add_static
add_static-proxies now name targets labels cfg s = ground arith

pub add_bucket-proxies :
    (now : ℕ) (name : Text) (labels : Dict Text) (cfg : Option HealthcheckConfig) (s : Services)
    → (add_bucket now name labels cfg s).0.proxies ≡ s.proxies
unfolding add_bucket
add_bucket-proxies now name labels cfg s = ground arith

pub remove_bucket-proxies :
    (now : ℕ) (name : Text) (s : Services) → (remove_bucket now name s).0.proxies ≡ s.proxies
unfolding remove_bucket
remove_bucket-proxies now name s = ground arith

pub remove_proxy-proxies :
    (now : ℕ) (name k : Text) (s : Services)
    → (remove_proxy now name s).1 ≡ none
    → lookup k (remove_proxy now name s).0.proxies
      ≡ (if name == k then none else lookup k s.proxies)
unfolding remove_proxy proxy_store_remove
remove_proxy-proxies now name k s h = ground (arith, h, lookup-delete name k s.proxies)
