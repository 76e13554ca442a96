-- ===== src/Agent/Api/Watched.antt =====
-- The service list changes with its modification time only, whatever the agent is asked to do.
pub mod Listen
pub mod Serve
use tailscale_metrics_discov.Common.{
  ℕ, ◌<◌, ◌≡◌, ◌⊎◌, inl, inr, refl, sym, ap, ◌∙◌, subst, Bool, true, false, List, [], Option, none,
  some, arith, is_some, Option-cases, Bool-cases, if◌then◌else◌,
}
use tailscale_metrics_discov.Common.Text.{Text, ◌==◌, ==_iff}
use tailscale_metrics_discov.Common.Dict.{lookup}
use tailscale_metrics_discov.Config.{AgentConfig}
use tailscale_metrics_discov.Agent.Error.{Error}
use tailscale_metrics_discov.Agent.Registry.{
  Registry, Op, apply, touched, touch_services, list_without_health,
}
use tailscale_metrics_discov.Agent.Registry.Modified.{
  IsAligned, apply-Tracked, apply-IsAligned, next_modified_at-later,
}
use tailscale_metrics_discov.Agent.Services.{Services}
use tailscale_metrics_discov.Agent.Services.Closed.{
  add_static_keeps, add_bucket_keeps, add_proxy_keeps, remove_static_keeps, remove_bucket_keeps,
  remove_proxy_keeps,
}
use tailscale_metrics_discov.Agent.Services.Reload.Closed.{reload_config_services_keeps}
use tailscale_metrics_discov.Agent.Server.{
  Server, AttrsOutcome, save_config, config_with_node_attrs, rebind_http_server, load_node_attrs,
  adopt_config, reload,
}
use tailscale_metrics_discov.Agent.Mgmt.{
  Writes, Request, ProxyRequest, service_add, bucket_add, proxy_add, service_remove, bucket_remove,
  bucket_clear, proxy_remove, config_reload, settle, commit, serve, add_service, remove_service,
  add_bucket_service, remove_bucket_service, clear_bucket, add_proxy_service, add_typed_proxy,
  remove_proxy_service, detect_auth_type,
}

-- The registry of a server, and the address that it listens on, since some point of time.
module _ (r₀ : Registry) (l₀ : Text) where
  -- The time has moved on, or list and address are those of then.
  abbrev pub Seen : Text → Registry → Type 0
  Seen listen r =
      IsAligned r
      × ((r₀.svc_modified_at < r.svc_modified_at)
          ⊎ ((r₀.svc_modified_at ≡ r.svc_modified_at)
              × (list_without_health r ≡ list_without_health r₀)
              × (listen ≡ l₀)))

  pub closed :
      (listen : Text) (now : ℕ) (o : Op) (r : Registry)
      → Seen listen r
      → Seen listen (apply now o r)
  closed listen now o r (a, h) =
      (apply-IsAligned now o r a, ground (arith, h, apply-Tracked now o r))

  -- It listens on the address of its configuration.
  abbrev pub Watched : Server → Type 0
  Watched s = Seen s.cfg.server.listen s.svc.reg × (s.listening ≡ some s.cfg.server.listen)

  save_config-Watched :
      (writes : Bool) (cfg : AgentConfig) (s : Server)
      → Watched s
      → Watched (save_config writes cfg s).0
  unfolding save_config
  save_config-Watched writes cfg s h = elim (Bool-cases s.has_file) [
    | inl on ↦ (elim (Bool-cases writes) [
      | inl ok ↦ simp (on, ok) h
      | inr fail ↦ simp (on, fail) h
    ])
    | inr off ↦ simp off h
  ]

  settle-Watched :
      (w : Writes) (old next : AgentConfig) (code : ℕ) (r : Services × Option Error) (s : Server)
      → next.server ≡ s.cfg.server
      → Seen s.cfg.server.listen r.0.reg
      → s.listening ≡ some s.cfg.server.listen
      → Watched (settle w old next code r s).0
  unfolding settle
  settle-Watched w old next code (svc, none) s e h l = simp e (h, l)
  settle-Watched w old next code (svc, some x) s e h l =
      save_config-Watched w.rollback old (record s { svc = svc }) (h, l)

  saved-cfg :
      (writes : Bool) (cfg : AgentConfig) (s : Server)
      → ((save_config writes cfg s).0.cfg ≡ s.cfg)
        × ((save_config writes cfg s).0.svc ≡ s.svc)
        × ((save_config writes cfg s).0.listening ≡ s.listening)
  unfolding save_config
  saved-cfg writes cfg s = ground arith

  pub commit-Watched :
      (w : Writes) (next : AgentConfig) (code : ℕ) (change : Services → Services × Option Error)
      (s : Server)
      → next.server ≡ s.cfg.server
      → ((P : Registry → Type 0)
          → ((now : ℕ) (o : Op) (r : Registry) → P r → P (apply now o r))
          → (v : Services) → P v.reg
          → P (change v).0.reg)
      → Watched s
      → Watched (commit w next code change s).0
  unfolding commit
  commit-Watched w next code change s e keeps h =
      let t = (save_config w.first next s).0 in
      let (c, v, l) = saved-cfg w.first next s in
      let watched = save_config-Watched w.first next s h in
      elim (Bool-cases (save_config w.first next s).1) [
        | inl ok ↦
            rw (ok, commit)
              (settle-Watched w s.cfg next code (change t.svc) t
                (e ∙ sym (ap (λ (q : AgentConfig). q.server) c))
                (keeps (Seen t.cfg.server.listen) (closed t.cfg.server.listen) t.svc watched.0)
                watched.1)
        | inr fail ↦ rw (fail, commit) watched
      ]
