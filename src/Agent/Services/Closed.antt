-- ===== src/Agent/Services/Closed.antt =====
-- What holds of a registry through all of its own calls holds through the calls that add, update and
-- remove services.
use tailscale_metrics_discov.Common.{
  ℕ, List, [], Option, none, some, Option-cases, Bool-cases, inl, inr,
}
use tailscale_metrics_discov.Common.Text.{Text, ◌==◌}
use tailscale_metrics_discov.Common.Dict.{Dict, has}
use tailscale_metrics_discov.Config.{HealthcheckConfig}
use tailscale_metrics_discov.Agent.Registry
use tailscale_metrics_discov.Agent.Registry.{
  Registry, Op, added, removed, updated, health_updated, apply,
}
use tailscale_metrics_discov.Agent.HealthChecker.{
  HealthChecker, register, register_check, initial_status, unregister,
}
use tailscale_metrics_discov.Agent.Proxy.{Auth}
use tailscale_metrics_discov.Agent.Services.{
  Services, add_static, remove_static, add_bucket, update_bucket, remove_bucket, add_proxy,
  remove_proxy, static_entry, bucket_service_entry, proxy_service_entry, bucket_store_add,
  bucket_store_remove, proxy_store_add, proxy_store_remove,
}

module _ (P : Registry → Type 0)
    (closed : (now : ℕ) (o : Op) (r : Registry) → P r → P (apply now o r)) where
  register_keeps :
      (now : ℕ) (name : Text) (cfg : Option HealthcheckConfig) (h : HealthChecker) (r : Registry)
      → P r
      → P (register now name cfg (h, r)).1
  unfolding register register_check apply
  register_keeps now name none h r v = v
  register_keeps now name (some cfg) h r v = elim (Bool-cases (cfg.url == [])) [
    | inl e ↦ rw e v
    | inr e ↦ (elim (Bool-cases h.started) [
      | inl on ↦ rw (e, on) (closed now (health_updated name (initial_status cfg.url)) r v)
      | inr off ↦ rw (e, off) v
    ])
  ]

  pub add_static_keeps :
      (now : ℕ) (name : Text) (targets : List Text) (labels : Dict Text)
      (cfg : Option HealthcheckConfig) (s : Services)
      → P s.reg
      → P (add_static now name targets labels cfg s).0.reg
  unfolding add_static apply
  add_static_keeps now name targets labels cfg s v =
      let e = static_entry name targets labels in
      let w = closed now (added e) s.reg v in
      elim (Option-cases (Registry.add now e s.reg).1) [
        | inl f ↦ rw (f, add_static) (register_keeps now name cfg s.hc _ w)
        | inr (x, f) ↦ rw (f, add_static) v
      ]

  pub add_bucket_keeps :
      (now : ℕ) (name : Text) (labels : Dict Text) (cfg : Option HealthcheckConfig) (s : Services)
      → P s.reg
      → P (add_bucket now name labels cfg s).0.reg
  unfolding add_bucket bucket_store_add apply
  add_bucket_keeps now name labels cfg s v =
      let e = bucket_service_entry name labels in
      let w = closed now (added e) s.reg v in
      elim (Bool-cases (has name s.buckets)) [
        | inl there ↦ rw (there, add_bucket) v
        | inr absent ↦ (elim (Option-cases (Registry.add now e s.reg).1) [
          | inl f ↦ rw (absent, f, add_bucket) (register_keeps now name cfg s.hc _ w)
          | inr (x, f) ↦ rw (absent, f, add_bucket) v
        ])
      ]

  pub add_proxy_keeps :
      (now : ℕ) (name target : Text) (auth : Auth) (labels : Dict Text)
      (cfg : Option HealthcheckConfig) (s : Services)
      → P s.reg
      → P (add_proxy now name target auth labels cfg s).0.reg
  unfolding add_proxy proxy_store_add apply
  add_proxy_keeps now name target auth labels cfg s v =
      let e = proxy_service_entry name labels in
      let w = closed now (added e) s.reg v in
      elim (Bool-cases (has name s.proxies)) [
        | inl there ↦ rw (there, add_proxy) v
        | inr absent ↦ (elim (Option-cases (Registry.add now e s.reg).1) [
          | inl f ↦ rw (absent, f, add_proxy) (register_keeps now name cfg s.hc _ w)
          | inr (x, f) ↦ rw (absent, f, add_proxy) v
        ])
      ]

  pub remove_static_keeps :
      (now : ℕ) (name : Text) (s : Services) → P s.reg → P (remove_static now name s).0.reg
  unfolding remove_static apply
  remove_static_keeps now name s v = closed now (removed name) s.reg v

  pub remove_bucket_keeps :
      (now : ℕ) (name : Text) (s : Services) → P s.reg → P (remove_bucket now name s).0.reg
  unfolding remove_bucket bucket_store_remove apply
  remove_bucket_keeps now name s v = elim (Bool-cases (has name s.buckets)) [
    | inl there ↦ rw (there, remove_bucket) (closed now (removed name) s.reg v)
    | inr absent ↦ rw (absent, remove_bucket) v
  ]

  pub remove_proxy_keeps :
      (now : ℕ) (name : Text) (s : Services) → P s.reg → P (remove_proxy now name s).0.reg
  unfolding remove_proxy proxy_store_remove apply
  remove_proxy_keeps now name s v = elim (Bool-cases (has name s.proxies)) [
    | inl there ↦ rw (there, remove_proxy) (closed now (removed name) s.reg v)
    | inr absent ↦ rw (absent, remove_proxy) v
  ]

  pub update_bucket_keeps :
      (now : ℕ) (name : Text) (labels : Dict Text) (cfg : Option HealthcheckConfig) (s : Services)
      → P s.reg
      → P (update_bucket now name labels cfg s).0.reg
  unfolding update_bucket apply
  update_bucket_keeps now name labels cfg s v =
      let e = bucket_service_entry name labels in
      let w = closed now (updated e) s.reg v in
      elim (Bool-cases (has name s.buckets)) [
        | inl there ↦ (elim (Option-cases (Registry.update now e s.reg).1) [
          | inl f ↦
              rw (there, f, update_bucket) (register_keeps now name cfg (unregister name s.hc) _ w)
          | inr (x, f) ↦ rw (there, f, update_bucket) v
        ])
        | inr absent ↦ rw (absent, update_bucket) v
      ]
