-- ===== src/Agent/Services/Reload/Closed.antt =====
-- What holds of a registry through all of its own calls holds through a reload.
use tailscale_metrics_discov.Common.{ℕ, List, [], ◌∷◌, Bool-cases, inl, inr, or_else}
use tailscale_metrics_discov.Common.Text.{Text}
use tailscale_metrics_discov.Common.Dict.{Dict, lookup, has}
use tailscale_metrics_discov.Protocol.{ServiceType, ServiceEntry}
use tailscale_metrics_discov.Config.{StaticService, BucketService, ProxyService, AgentConfig}
use tailscale_metrics_discov.Agent.Registry.{Registry, Op, apply, list}
use tailscale_metrics_discov.Agent.Services.{Services}
use tailscale_metrics_discov.Agent.Services.Closed.{
  add_static_keeps, add_bucket_keeps, add_proxy_keeps, remove_static_keeps, remove_bucket_keeps,
  remove_proxy_keeps, update_bucket_keeps,
}
use tailscale_metrics_discov.Agent.Services.Reload.{
  drop_service, drop_services, reload_statics, reload_bucket, reload_buckets, reload_proxies,
  reload_config_services, zero_bucket, proxy_auth,
}

module _ (P : Registry → Type 0)
    (closed : (now : ℕ) (o : Op) (r : Registry) → P r → P (apply now o r)) where
  drop_service_keeps :
      (now : ℕ) (d : Dict BucketService) (ty : ServiceType) (name : Text) (s : Services)
      → P s.reg
      → P (drop_service now d ty name s).reg
  unfolding drop_service
  drop_service_keeps now d ServiceType.static name s v = remove_static_keeps P closed now name s v
  drop_service_keeps now d ServiceType.bucket name s v = elim (Bool-cases (has name d)) [
    | inl e ↦ rw (e, drop_service) v
    | inr e ↦ rw (e, drop_service) (remove_bucket_keeps P closed now name s v)
  ]
  drop_service_keeps now d ServiceType.proxy name s v = remove_proxy_keeps P closed now name s v

  drop_services_keeps :
      (now : ℕ) (d : Dict BucketService) (es : List ServiceEntry) (s : Services)
      → P s.reg
      → P (drop_services now d es s).reg
  unfolding drop_services
  drop_services_keeps now d [] s v = v
  drop_services_keeps now d (e ∷ es) s v =
      drop_services_keeps now d es _ (drop_service_keeps now d e.type e.name s v)

  reload_statics_keeps :
      (now : ℕ) (sts : List StaticService) (s : Services)
      → P s.reg
      → P (reload_statics now sts s).reg
  unfolding reload_statics
  reload_statics_keeps now [] s v = v
  reload_statics_keeps now (st ∷ sts) s v =
      reload_statics_keeps now sts _
        (add_static_keeps P closed now st.name st.targets st.labels st.healthcheck s v)

  reload_buckets_keeps :
      (now : ℕ) (d : Dict BucketService) (order : List Text) (s : Services)
      → P s.reg
      → P (reload_buckets now d order s).reg
  unfolding reload_buckets reload_bucket
  reload_buckets_keeps now d [] s v = v
  reload_buckets_keeps now d (name ∷ order) s v =
      let bc = or_else (lookup name d) zero_bucket in
      reload_buckets_keeps now d order _ (elim (Bool-cases (has name s.buckets)) [
        | inl e ↦
            rw (e, reload_bucket)
              (update_bucket_keeps P closed now name bc.labels bc.healthcheck s v)
        | inr e ↦
            rw (e, reload_bucket) (add_bucket_keeps P closed now name bc.labels bc.healthcheck s v)
      ])

  reload_proxies_keeps :
      (now : ℕ) (pcs : List ProxyService) (s : Services)
      → P s.reg
      → P (reload_proxies now pcs s).reg
  unfolding reload_proxies
  reload_proxies_keeps now [] s v = v
  reload_proxies_keeps now (pc ∷ pcs) s v = reload_proxies_keeps now pcs _ (
      add_proxy_keeps P closed now pc.name pc.target (proxy_auth pc.auth) pc.labels pc.healthcheck s
        v)

  pub reload_config_services_keeps :
      (now : ℕ) (cfg : AgentConfig) (s : Services)
      → P s.reg
      → P (reload_config_services now cfg s).reg
  unfolding reload_config_services
  reload_config_services_keeps now cfg s v = reload_proxies_keeps now cfg.proxies _ (
      reload_buckets_keeps now _ _ _
        (reload_statics_keeps now cfg.statics _ (drop_services_keeps now _ (list s.reg) s v)))
