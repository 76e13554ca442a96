-- ===== src/Agent/Services/Reach.antt =====
-- The services of a running agent: the calls that change them, in any order.
use tailscale_metrics_discov.Common.{ℕ, ◌≡◌, true, false, List, Option, arith}
use tailscale_metrics_discov.Common.Text.{Text, ==_iff}
use tailscale_metrics_discov.Common.Dict.{Dict, insert, has, lookup-insert}
use tailscale_metrics_discov.Protocol.{ServiceHealthStatus}
use tailscale_metrics_discov.Config.{HealthcheckConfig}
use tailscale_metrics_discov.Agent.Registry.{update_health}
use tailscale_metrics_discov.Agent.Bucket.{Bucket}
use tailscale_metrics_discov.Agent.Proxy.{Auth}
use tailscale_metrics_discov.Agent.Services.{
  Services, add_static, remove_static, add_bucket, update_bucket, remove_bucket, add_proxy,
  remove_proxy,
}
use tailscale_metrics_discov.Agent.Services.Consistent.{
  IsConsistent, update_health-types, add_static-IsConsistent, remove_static-IsConsistent,
  add_bucket-IsConsistent, update_bucket-IsConsistent, remove_bucket-IsConsistent,
  add_proxy-IsConsistent, remove_proxy-IsConsistent,
}

-- One call that changes the services. `removeStatic` is called for names that are neither a bucket's nor
-- a proxy's. A health check writes its outcome into the registry, and a request of a pushing client
-- replaces what a bucket holds.
pub data Step : Services → Services → Type 0 where
  static_added :
      (now : ℕ) (name : Text) (targets : List Text) (labels : Dict Text)
      (cfg : Option HealthcheckConfig) (s : Services)
      → Step s (add_static now name targets labels cfg s).0
  static_removed :
      (now : ℕ) (name : Text) (s : Services)
      → has name s.buckets ≡ false
      → has name s.proxies ≡ false
      → Step s (remove_static now name s).0
  bucket_added :
      (now : ℕ) (name : Text) (labels : Dict Text) (cfg : Option HealthcheckConfig) (s : Services)
      → Step s (add_bucket now name labels cfg s).0
  bucket_updated :
      (now : ℕ) (name : Text) (labels : Dict Text) (cfg : Option HealthcheckConfig) (s : Services)
      → Step s (update_bucket now name labels cfg s).0
  bucket_removed : (now : ℕ) (name : Text) (s : Services) → Step s (remove_bucket now name s).0
  proxy_added :
      (now : ℕ) (name target : Text) (auth : Auth) (labels : Dict Text)
      (cfg : Option HealthcheckConfig) (s : Services)
      → Step s (add_proxy now name target auth labels cfg s).0
  proxy_removed : (now : ℕ) (name : Text) (s : Services) → Step s (remove_proxy now name s).0
  health_checked :
      (now : ℕ) (name : Text) (h : ServiceHealthStatus) (s : Services)
      → Step s (record s { reg = update_health now name h s.reg })
  bucket_written :
      (name : Text) (b : Bucket) (s : Services)
      → has name s.buckets ≡ true
      → Step s (record s { buckets = insert name b s.buckets })

pub data Reach (s : Services) : Services → Type 0 where
  here : Reach s s
  later : (t u : Services) → Reach s t → Step t u → Reach s u

bucket_written-IsConsistent :
    (name : Text) (b : Bucket) (s : Services)
    → has name s.buckets ≡ true
    → IsConsistent s
    → IsConsistent (record s { buckets = insert name b s.buckets })
bucket_written-IsConsistent name b s h c k =
    ground (arith, c k, c name, lookup-insert name k b s.buckets, ==_iff name k)

health_checked-IsConsistent :
    (now : ℕ) (name : Text) (h : ServiceHealthStatus) (s : Services)
    → IsConsistent s
    → IsConsistent (record s { reg = update_health now name h s.reg })
health_checked-IsConsistent now name h s c k =
    ground (arith, c k, update_health-types now name k h s.reg)

Step-IsConsistent : (s t : Services) → Step s t → IsConsistent s → IsConsistent t
Step-IsConsistent s _ (static_added now name targets labels cfg _) =
    add_static-IsConsistent now name targets labels cfg s
Step-IsConsistent s _ (static_removed now name _ nb np) =
    remove_static-IsConsistent now name s nb np
Step-IsConsistent s _ (bucket_added now name labels cfg _) =
    add_bucket-IsConsistent now name labels cfg s
Step-IsConsistent s _ (bucket_updated now name labels cfg _) =
    update_bucket-IsConsistent now name labels cfg s
Step-IsConsistent s _ (bucket_removed now name _) = remove_bucket-IsConsistent now name s
Step-IsConsistent s _ (proxy_added now name target auth labels cfg _) =
    add_proxy-IsConsistent now name target auth labels cfg s
Step-IsConsistent s _ (proxy_removed now name _) = remove_proxy-IsConsistent now name s
Step-IsConsistent s _ (health_checked now name h _) = health_checked-IsConsistent now name h s
Step-IsConsistent s _ (bucket_written name b _ h) = bucket_written-IsConsistent name b s h

-- Along any sequence of calls, failing ones included, the bucket store holds exactly the names that the
-- registry lists as buckets and the proxy store exactly those that it lists as proxies, if this holds
-- at the start and no static removal is given the name of a bucket or proxy.
pub Reach-IsConsistent : (s t : Services) → Reach s t → IsConsistent s → IsConsistent t
Reach-IsConsistent s _ here c = c
Reach-IsConsistent s _ (later t u r step) c =
    Step-IsConsistent t u step (Reach-IsConsistent s t r c)
