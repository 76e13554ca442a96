-- ===== src/Agent/Api/Watched/Serve.antt =====
-- Management requests, with the service list watched.
use tailscale_metrics_discov.Common.{ℕ, inl, inr, refl, Option-cases}
use tailscale_metrics_discov.Common.Text.{Text}
use tailscale_metrics_discov.Common.Dict.{lookup}
use tailscale_metrics_discov.Agent.Registry.{Registry}
use tailscale_metrics_discov.Agent.Services.Closed.{
  add_static_keeps, add_bucket_keeps, add_proxy_keeps, remove_static_keeps, remove_bucket_keeps,
  remove_proxy_keeps,
}
use tailscale_metrics_discov.Agent.Server.{Server}
use tailscale_metrics_discov.Agent.Mgmt.{
  Writes, Request, ProxyRequest, service_add, bucket_add, proxy_add, service_remove, bucket_remove,
  bucket_clear, proxy_remove, config_reload, serve, add_service, remove_service, add_bucket_service,
  remove_bucket_service, clear_bucket, add_proxy_service, add_typed_proxy, remove_proxy_service,
  detect_auth_type,
}
use tailscale_metrics_discov.Agent.Api.Watched.{Watched, commit-Watched}
use tailscale_metrics_discov.Agent.Api.Watched.Listen.{reload-Watched}

module _ (r₀ : Registry) (l₀ : Text) where
  add_proxy_service-Watched :
      (now : ℕ) (w : Writes) (req : ProxyRequest) (s : Server)
      → Watched r₀ l₀ s
      → Watched r₀ l₀ (add_proxy_service now w req s).0
  unfolding add_proxy_service add_typed_proxy
  add_proxy_service-Watched now w req s h = elim (Option-cases (detect_auth_type req.auth)) [
    | inl e ↦ rw (e, add_proxy_service) h
    | inr (t, e) ↦
        rw (e, add_proxy_service)
          (commit-Watched r₀ l₀ w _ 409 _ s refl
            (λ P c v. add_proxy_keeps P c now req.name req.target _ req.labels _ v) h)
  ]

  clear_bucket-Watched :
      (name : Text) (s : Server) → Watched r₀ l₀ s → Watched r₀ l₀ (clear_bucket name s).0
  unfolding clear_bucket
  clear_bucket-Watched name s h = elim (Option-cases (lookup name s.svc.buckets)) [
    | inl e ↦ rw (e, clear_bucket) h
    | inr (b, e) ↦ rw (e, clear_bucket) h
  ]

  pub serve-Watched :
      (now : ℕ) (w : Writes) (req : Request) (s : Server)
      → Watched r₀ l₀ s
      → Watched r₀ l₀ (serve now w req s).0
  unfolding serve add_service remove_service add_bucket_service remove_bucket_service
      remove_proxy_service
  serve-Watched now w (service_add req) s h =
      commit-Watched r₀ l₀ w _ 409 _ s refl
        (λ P c v. add_static_keeps P c now req.name req.targets req.labels _ v) h
  serve-Watched now w (bucket_add req) s h =
      commit-Watched r₀ l₀ w _ 409 _ s refl
        (λ P c v. add_bucket_keeps P c now req.name req.labels _ v) h
  serve-Watched now w (proxy_add req) s h = add_proxy_service-Watched now w req s h
  serve-Watched now w (service_remove name) s h =
      commit-Watched r₀ l₀ w _ 404 _ s refl (λ P c v. remove_static_keeps P c now name v) h
  serve-Watched now w (bucket_remove name) s h =
      commit-Watched r₀ l₀ w _ 404 _ s refl (λ P c v. remove_bucket_keeps P c now name v) h
  serve-Watched now w (bucket_clear name) s h = clear_bucket-Watched name s h
  serve-Watched now w (proxy_remove name) s h =
      commit-Watched r₀ l₀ w _ 404 _ s refl (λ P c v. remove_proxy_keeps P c now name v) h
  serve-Watched now w (config_reload binds attrs loaded) s h =
      reload-Watched r₀ l₀ now binds attrs loaded s h
