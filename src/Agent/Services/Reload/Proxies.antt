-- ===== src/Agent/Services/Reload/Proxies.antt =====
-- What a reload leaves in the store of the proxies, beside the service list.
use mathlib.Core.Option
use tailscale_metrics_discov.Common.{
  ℕ, ◌≡◌, refl, ap, ◌∙◌, false, List, [], ◌∷◌, Option, none, some, arith, if◌then◌else◌,
}
use tailscale_metrics_discov.Common.Text.{Text, ◌==◌, ==_iff}
use tailscale_metrics_discov.Common.Dict.{Dict, lookup, lookup-insert}
use tailscale_metrics_discov.Common.Sorting.{find_by, DistinctBy}
use tailscale_metrics_discov.Protocol.{ServiceEntry}
use tailscale_metrics_discov.Config.{StaticService, BucketService, ProxyService, AgentConfig}
use tailscale_metrics_discov.Agent.Registry
use tailscale_metrics_discov.Agent.Registry.{without_health, list}
use tailscale_metrics_discov.Agent.Registry.Order.{IsValid}
use tailscale_metrics_discov.Agent.Proxy.{Proxy}
use tailscale_metrics_discov.Agent.Services.{
  Services, add_static, add_bucket, update_bucket, add_proxy, proxy_store_add, proxy_service_entry,
}
use tailscale_metrics_discov.Agent.Services.Consistent.{
  IsConsistent, is_proxy, add_proxy-IsConsistent,
}
use tailscale_metrics_discov.Agent.Services.Reload.{
  proxy_auth, reload_statics, reload_bucket, reload_buckets, reload_proxies, reload_config_services,
  desired_buckets,
}
use tailscale_metrics_discov.Agent.Services.Reload.Removal.{kept, drop_services-kept}
use tailscale_metrics_discov.Agent.Services.Reload.Listed.{listed, add_proxy-listed}
use tailscale_metrics_discov.Agent.Services.Reload.Loops.{
  proxy_name, proxy_entry_of, Free, Free-put,
}
use tailscale_metrics_discov.Agent.Services.Reload.Configured.{
  HasDistinctNames, configured, reload-configured, wanted, dropped, with_statics, with_buckets,
  buckets-listed, proxies-Free,
}

abbrev pub proxy_of : ProxyService → Proxy
proxy_of pc = record { target = pc.target; auth = proxy_auth pc.auth }

-- The proxy of the first service with a name, or else another one.
abbrev pub stored_or : Option ProxyService → Option Proxy → Option Proxy
stored_or none o = o
stored_or (some pc) o = some (proxy_of pc)

reload_statics-proxies :
    (now : ℕ) (sts : List StaticService) (s : Services)
    → (reload_statics now sts s).proxies ≡ s.proxies
unfolding reload_statics add_static
reload_statics-proxies now [] s = refl
reload_statics-proxies now (st ∷ sts) s = reload_statics-proxies now sts _ ∙ ground arith

reload_bucket-proxies :
    (now : ℕ) (name : Text) (bc : BucketService) (s : Services)
    → (reload_bucket now name bc s).proxies ≡ s.proxies
unfolding reload_bucket add_bucket update_bucket
reload_bucket-proxies now name bc s = ground arith

reload_buckets-proxies :
    (now : ℕ) (desired : Dict BucketService) (order : List Text) (s : Services)
    → (reload_buckets now desired order s).proxies ≡ s.proxies
unfolding reload_buckets
reload_buckets-proxies now desired [] s = refl
reload_buckets-proxies now desired (name ∷ order) s =
    reload_buckets-proxies now desired order _ ∙ reload_bucket-proxies now name _ s

pub add_proxy-stored :
    (now : ℕ) (pc : ProxyService) (k : Text) (s : Services)
    → IsConsistent s
    → listed s pc.name ≡ none
    → lookup k
        (add_proxy now pc.name pc.target (proxy_auth pc.auth) pc.labels pc.healthcheck s).0.proxies
      ≡ (if pc.name == k then some (proxy_of pc) else lookup k s.proxies)
unfolding add_proxy proxy_store_add Registry.add proxy_service_entry
add_proxy-stored now pc k s c f =
    ground (arith, f, c pc.name, lookup-insert pc.name k (proxy_of pc) s.proxies)

reload_proxies-stored :
    (now : ℕ) (pcs : List ProxyService) (s : Services)
    → IsConsistent s
    → DistinctBy proxy_name pcs
    → Free proxy_name s pcs
    → (k : Text)
    → lookup k (reload_proxies now pcs s).proxies
      ≡ stored_or (find_by proxy_name k pcs) (lookup k s.proxies)
unfolding reload_proxies find_by
reload_proxies-stored now [] s c d f k = refl
reload_proxies-stored now (pc ∷ pcs) s c d f k =
    let auth = proxy_auth pc.auth in
    let t = (add_proxy now pc.name pc.target auth pc.labels pc.healthcheck s).0 in
    let later =
      reload_proxies-stored now pcs t
        (add_proxy-IsConsistent now pc.name pc.target auth pc.labels pc.healthcheck s c) d.1
        (Free-put proxy_name pc.name (proxy_entry_of pc) s t pcs
          (λ j. add_proxy-listed now pc.name j pc.target auth pc.labels pc.healthcheck s c f.0) d.0
          f.1)
        k in
    ground (arith, later, add_proxy-stored now pc k s c f.0, d.0, ==_iff pc.name k)

kept-no_proxy :
    (desired : Dict BucketService) (o : Option ServiceEntry) → is_proxy (kept desired o) ≡ false
kept-no_proxy desired none = refl
kept-no_proxy desired (some e) = ground arith

module _ (now : ℕ) (cfg : AgentConfig) (s : Services) (c : IsConsistent s) (v : IsValid s.reg)
    (u : HasDistinctNames cfg) where
  dropped-proxies : (k : Text) → lookup k (dropped now cfg s c v u).proxies ≡ none
  dropped-proxies k =
      let (consistent, left) = drop_services-kept now (wanted now cfg s c v u) s c v in
      ground (
        arith,
        left k,
        consistent k,
        kept-no_proxy (wanted now cfg s c v u) (lookup k s.reg.entries),
      )

  -- If the stores of buckets and proxies are in step with the registry, the registry has each entry
  -- once and under its own name, and no name occurs twice in the configuration, then a reload leaves on
  -- the service list, under each name, exactly the entry that the configuration asks for, in the proxy
  -- store exactly the proxies of the configuration, each with its target and credentials, and the stores
  -- in step with the registry.
  pub reload_complete :
      IsConsistent (reload_config_services now cfg s)
      × ((k : Text) → listed (reload_config_services now cfg s) k ≡ configured cfg k)
      × ((k : Text)
          → lookup k (reload_config_services now cfg s).proxies
            ≡ Option.map proxy_of (find_by proxy_name k cfg.proxies))
  unfolding reload_config_services
  reload_complete =
      let (consistent, lists) = reload-configured now cfg s c v u in
      (
        consistent,
        lists,
        λ k.
            reload_proxies-stored now cfg.proxies (with_buckets now cfg s c v u)
              (buckets-listed now cfg s c v u).0 u.proxies (proxies-Free now cfg s c v u) k
            ∙ ground (
              arith,
              dropped-proxies k,
              ap (lookup k) (
                  reload_buckets-proxies now (wanted now cfg s c v u)
                    (desired_buckets cfg.buckets [] []).1 (with_statics now cfg s c v u)),
              ap (lookup k) (reload_statics-proxies now cfg.statics (dropped now cfg s c v u)),
            ),
      )
