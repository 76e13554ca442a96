-- ===== src/Agent/Services/Reload/Buckets.antt =====
-- A reload keeps what the buckets hold that the configuration still names.
use tailscale_metrics_discov.Common.{
  ℕ, ◌≡◌, refl, ap, ◌∙◌, true, List, [], ◌∷◌, Option, some, is_some, arith, if◌then◌else◌,
}
use tailscale_metrics_discov.Common.Text.{Text, ==_iff}
use tailscale_metrics_discov.Common.Dict.{Dict, lookup, insert, has, lookup-insert, lookup-delete}
use tailscale_metrics_discov.Common.Sorting.{find_by}
use tailscale_metrics_discov.Protocol.{ServiceType, ServiceEntry}
use tailscale_metrics_discov.Config.{
  HealthcheckConfig, StaticService, BucketService, ProxyService, AgentConfig,
}
use tailscale_metrics_discov.Agent.Registry.{list}
use tailscale_metrics_discov.Agent.Bucket.{new_bucket, Bucket}
use tailscale_metrics_discov.Agent.Proxy.{Auth}
use tailscale_metrics_discov.Agent.Services.{
  Services, add_static, remove_static, add_bucket, update_bucket, remove_bucket, add_proxy,
  remove_proxy, bucket_store_add, bucket_store_remove, proxy_store_remove,
}
use tailscale_metrics_discov.Agent.Services.Reload.{
  desired_buckets, drop_service, drop_services, reload_statics, reload_bucket, reload_buckets,
  reload_proxies, reload_config_services,
}

abbrev pub bucket_name : BucketService → Text
bucket_name bc = bc.name

-- The desired buckets are those of the configuration, the first of each name.
pub desired_buckets-has :
    (k : Text) (bcs : List BucketService) (d : Dict BucketService) (order : List Text)
    → has k (desired_buckets bcs d order).0
      ≡ (if is_some (find_by bucket_name k bcs) then true else has k d)
unfolding desired_buckets find_by
desired_buckets-has k [] d order = refl
desired_buckets-has k (bc ∷ bcs) d order =
    desired_buckets-has k bcs (if has bc.name d then d else insert bc.name bc d) _
    ∙ ground (arith, lookup-insert bc.name k bc d, ==_iff bc.name k)

drop_service-bucket :
    (now : ℕ) (desired : Dict BucketService) (t : ServiceType) (name k : Text) (s : Services)
    → has k desired ≡ true
    → lookup k (drop_service now desired t name s).buckets ≡ lookup k s.buckets
unfolding drop_service remove_static remove_bucket remove_proxy bucket_store_remove
    proxy_store_remove
drop_service-bucket now desired t name k s h =
    ground (arith, h, lookup-delete name k s.buckets, ==_iff name k)

drop_services-bucket :
    (now : ℕ) (desired : Dict BucketService) (es : List ServiceEntry) (k : Text) (s : Services)
    → has k desired ≡ true
    → lookup k (drop_services now desired es s).buckets ≡ lookup k s.buckets
unfolding drop_services
drop_services-bucket now desired [] k s h = refl
drop_services-bucket now desired (e ∷ es) k s h =
    drop_services-bucket now desired es k _ h ∙ drop_service-bucket now desired e.type e.name k s h

add_static-bucket :
    (now : ℕ) (st : StaticService) (s : Services)
    → (add_static now st.name st.targets st.labels st.healthcheck s).0.buckets ≡ s.buckets
unfolding add_static
add_static-bucket now st s = ground arith

reload_statics-bucket :
    (now : ℕ) (sts : List StaticService) (s : Services)
    → (reload_statics now sts s).buckets ≡ s.buckets
unfolding reload_statics
reload_statics-bucket now [] s = refl
reload_statics-bucket now (st ∷ sts) s =
    reload_statics-bucket now sts _ ∙ add_static-bucket now st s

reload_bucket-bucket :
    (now : ℕ) (name k : Text) (bc : BucketService) (s : Services) (b : Bucket)
    → lookup k s.buckets ≡ some b
    → lookup k (reload_bucket now name bc s).buckets ≡ some b
unfolding reload_bucket add_bucket update_bucket bucket_store_add bucket_store_remove
reload_bucket-bucket now name k bc s b h = ground (
  arith,
  h,
  lookup-insert name k new_bucket s.buckets,
  lookup-insert name name new_bucket s.buckets,
  lookup-delete name k (insert name new_bucket s.buckets),
  ==_iff name k,
)

reload_buckets-bucket :
    (now : ℕ) (desired : Dict BucketService) (order : List Text) (k : Text) (s : Services)
    (b : Bucket)
    → lookup k s.buckets ≡ some b
    → lookup k (reload_buckets now desired order s).buckets ≡ some b
unfolding reload_buckets
reload_buckets-bucket now desired [] k s b h = h
reload_buckets-bucket now desired (n ∷ order) k s b h =
    reload_buckets-bucket now desired order k _ b (reload_bucket-bucket now n k _ s b h)

add_proxy-bucket :
    (now : ℕ) (name target : Text) (auth : Auth) (labels : Dict Text)
    (cfg : Option HealthcheckConfig) (s : Services)
    → (add_proxy now name target auth labels cfg s).0.buckets ≡ s.buckets
unfolding add_proxy
add_proxy-bucket now name target auth labels cfg s = ground arith

reload_proxies-bucket :
    (now : ℕ) (pcs : List ProxyService) (s : Services)
    → (reload_proxies now pcs s).buckets ≡ s.buckets
unfolding reload_proxies
reload_proxies-bucket now [] s = refl
reload_proxies-bucket now (pc ∷ pcs) s =
    reload_proxies-bucket now pcs _
    ∙ add_proxy-bucket now pc.name pc.target _ pc.labels pc.healthcheck s

-- Whatever the services were and whatever else the configuration says, a bucket that it names keeps
-- all that was pushed to it through a reload.
pub reload-keeps-bucket :
    (now : ℕ) (cfg : AgentConfig) (k : Text) (s : Services) (b : Bucket)
    → is_some (find_by bucket_name k cfg.buckets) ≡ true
    → lookup k s.buckets ≡ some b
    → lookup k (reload_config_services now cfg s).buckets ≡ some b
unfolding reload_config_services lookup
reload-keeps-bucket now cfg k s b wanted h =
    let (desired, order) = desired_buckets cfg.buckets [] [] in
    let wants : has k desired ≡ true = desired_buckets-has k cfg.buckets [] [] ∙ rw wanted in
    let dropped = drop_services now desired (list s.reg) s in
    let statics = reload_statics now cfg.statics dropped in
    ap (lookup k) (reload_proxies-bucket now cfg.proxies (reload_buckets now desired order statics))
    ∙ reload_buckets-bucket now desired order k statics b (
        ap (lookup k) (reload_statics-bucket now cfg.statics dropped)
        ∙ drop_services-bucket now desired (list s.reg) k s wants
        ∙ h)
