-- ===== src/Agent/Api/Watched/Listen.antt =====
-- Binding a listener anew and reloading, with the service list watched.
use tailscale_metrics_discov.Common.{
  ℕ, ◌≡◌, inl, inr, refl, ap, ◌∙◌, subst, Bool, true, false, List, [], Option, none, some, arith,
  is_some, Bool-cases, if◌then◌else◌,
}
use tailscale_metrics_discov.Common.Text.{Text, ◌==◌, ==_iff}
use tailscale_metrics_discov.Config.{AgentConfig}
use tailscale_metrics_discov.Agent.Registry.{Registry, apply, touched, touch_services}
use tailscale_metrics_discov.Agent.Registry.Modified.{apply-IsAligned, next_modified_at-later}
use tailscale_metrics_discov.Agent.Services.Reload.Closed.{reload_config_services_keeps}
use tailscale_metrics_discov.Agent.Server.{
  Server, AttrsOutcome, config_with_node_attrs, rebind_http_server, load_node_attrs, adopt_config,
  reload,
}
use tailscale_metrics_discov.Agent.Api.Watched.{Seen, Watched, closed}

module _ (r₀ : Registry) (l₀ : Text) where
  -- A server that listens elsewhere has moved the time on.
  moved :
      (now : ℕ) (listen addr : Text) (r : Registry)
      → Seen r₀ l₀ listen r
      → Seen r₀ l₀ addr (touch_services now r)
  unfolding touch_services apply
  moved now listen addr r (a, h) = (
    apply-IsAligned now touched r a,
    ground (arith, h, next_modified_at-later now r.svc_modified_at),
  )

  -- Where a server listens after it is bound anew.
  Rebound : Text → Server × Bool → Type 0
  Rebound addr (t, false) = Watched r₀ l₀ t
  Rebound addr (t, true) = Watched r₀ l₀ t × (t.cfg.server.listen ≡ addr)

  rebind-Rebound :
      (now : ℕ) (binds : Bool) (addr : Text) (s : Server)
      → Watched r₀ l₀ s
      → Rebound addr (rebind_http_server now binds addr s)
  unfolding rebind_http_server Rebound
  rebind-Rebound now binds addr s h =
      let old = s.cfg.server.listen in
      elim (Bool-cases (old == addr)) [
        | inl here ↦
            let eq : old ≡ addr = (==_iff old addr).0 here in
            rw (h.1, rebind_http_server)
              (simp here ((subst (λ l. Seen r₀ l₀ l s.svc.reg) eq h.0, h.1 ∙ ap some eq), refl))
        | inr away ↦ (elim (Bool-cases binds) [
          | inl b ↦
              rw (h.1, rebind_http_server)
                (simp (away, b) ((moved now old addr s.svc.reg h.0, refl), refl))
          | inr b ↦ rw (h.1, rebind_http_server) (simp (away, b) h)
        ])
      ]

  Rebound-Watched : (addr : Text) (r : Server × Bool) → Rebound addr r → Watched r₀ l₀ r.0
  unfolding Rebound
  Rebound-Watched addr (t, false) h = h
  Rebound-Watched addr (t, true) h = h.0

  pub load_node_attrs-Watched :
      (now : ℕ) (binds : Bool) (attrs : AttrsOutcome) (s : Server)
      → Watched r₀ l₀ s
      → Watched r₀ l₀ (load_node_attrs now binds attrs s)
  unfolding load_node_attrs Rebound
  load_node_attrs-Watched now binds attrs s h =
      let (next, allowed) = config_with_node_attrs attrs s.cfg s in
      let addr = next.server.listen in
      let t : Server = record s { allowed_tags = allowed } in
      let on : is_some s.listening ≡ true = ap is_some h.1 in
      elim (Bool-cases (s.cfg.server.listen == addr)) [
        | inl here ↦ simp here h
        | inr away ↦ (elim (Bool-cases (addr == [])) [
          | inl blank ↦ simp (away, on, blank) h
          | inr named ↦
              simp (away, on, named)
                (Rebound-Watched addr (rebind_http_server now binds addr t)
                  (rebind-Rebound now binds addr t h))
        ])
      ]

  adopted :
      (now : ℕ) (next : AgentConfig) (allowed : List Text) (s : Server) (r : Server × Bool)
      → Watched r₀ l₀ s
      → Rebound next.server.listen r
      → Watched r₀ l₀
          (if◌then◌else◌ {A = Server × Bool} s.has_file
            (if◌then◌else◌ {A = Server × Bool} r.1
              (adopt_config now next allowed r.0, true)
              (r.0, false))
            (s, true)).0
  unfolding Rebound adopt_config
  adopted now next allowed s (t, false) h b = elim (Bool-cases s.has_file) [
    | inl file ↦ simp file b
    | inr file ↦ simp file h
  ]
  adopted now next allowed s (t, true) h b = elim (Bool-cases s.has_file) [
    | inl file ↦ simp file (
      reload_config_services_keeps (Seen r₀ l₀ next.server.listen) (closed r₀ l₀ next.server.listen)
          now next t.svc (subst (λ l. Seen r₀ l₀ l t.svc.reg) b.1 b.0.0),
      b.0.1 ∙ ap some b.1,
    )
    | inr file ↦ simp file h
  ]

  pub reload-Watched :
      (now : ℕ) (binds : Bool) (attrs : AttrsOutcome) (loaded : Option AgentConfig) (s : Server)
      → Watched r₀ l₀ s
      → Watched r₀ l₀ (reload now binds attrs loaded s).0
  unfolding reload adopt_config
  reload-Watched now binds attrs none s h = h
  reload-Watched now binds attrs (some cfg) s h =
      let (next, allowed) = config_with_node_attrs attrs cfg s in
      adopted now next allowed s (rebind_http_server now binds next.server.listen s) h
        (rebind-Rebound now binds next.server.listen s h)
