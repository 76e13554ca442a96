-- ===== src/Agent/Mgmt/Agreement/Reload.antt =====
-- A reload puts services and configuration in agreement.
use tailscale_metrics_discov.Common.{
  ℕ, ◌≡◌, sym, subst, Bool, false, List, some, arith, Option-cases, Bool-cases, inl, inr,
}
use tailscale_metrics_discov.Common.Text.{Text, ◌==◌}
use tailscale_metrics_discov.Config.{AgentConfig}
use tailscale_metrics_discov.Agent.Registry.{touch_services}
use tailscale_metrics_discov.Agent.Registry.Order.{IsValid, apply-IsValid}
use tailscale_metrics_discov.Agent.Services.{Services}
use tailscale_metrics_discov.Agent.Services.Consistent.{IsConsistent}
use tailscale_metrics_discov.Agent.Services.Reload.Closed.{reload_config_services_keeps}
use tailscale_metrics_discov.Agent.Services.Reload.Configured.{HasDistinctNames}
use tailscale_metrics_discov.Agent.Services.Reload.Proxies.{reload_complete}
use tailscale_metrics_discov.Agent.Server.{
  Server, AttrsOutcome, attrs_listen, read_attrs, config_with_node_attrs, rebind_http_server,
  adopt_config, reload,
}
use tailscale_metrics_discov.Agent.Mgmt.Agreement.{Agreeing}

-- Node attributes change no list of the configuration.
attrs-lists :
    (attrs : AttrsOutcome) (cfg : AgentConfig) (s : Server)
    → (config_with_node_attrs attrs cfg s).0
      ≡ record cfg { server = (config_with_node_attrs attrs cfg s).0.server }
unfolding config_with_node_attrs read_attrs attrs_listen
attrs-lists attrs cfg s = ground arith

attrs-HasDistinctNames :
    (attrs : AttrsOutcome) (cfg : AgentConfig) (s : Server)
    → HasDistinctNames cfg
    → HasDistinctNames (config_with_node_attrs attrs cfg s).0
attrs-HasDistinctNames attrs cfg s d =
    subst HasDistinctNames (sym (attrs-lists attrs cfg s)) (record {
      statics = d.statics;
      buckets = d.buckets;
      proxies = d.proxies;
      static_bucket = d.static_bucket;
      static_proxy = d.static_proxy;
      bucket_proxy = d.bucket_proxy;
    })

-- Rebinding touches the registry at most.
Sound : Services → Type 0
Sound s = IsConsistent s × IsValid s.reg

rebind-Sound :
    (now : ℕ) (binds : Bool) (addr : Text) (s : Server)
    → Sound s.svc
    → Sound (rebind_http_server now binds addr s).0.svc
unfolding rebind_http_server touch_services Sound
rebind-Sound now binds addr s h = elim (Option-cases s.listening) [
  | inl e ↦ rw (e, rebind_http_server) h
  | inr (old, e) ↦ (elim (Bool-cases (old == addr)) [
    | inl here ↦ rw (e, here, rebind_http_server) h
    | inr away ↦ (elim (Bool-cases binds) [
      | inl b ↦
          rw (e, away, b, rebind_http_server)
            (h.0, record { distinct = h.1.distinct; named = h.1.named })
      | inr b ↦ rw (e, away, b, rebind_http_server) h
    ])
  ])
]

refused_keeps :
    (now : ℕ) (binds : Bool) (addr : Text) (s : Server)
    → (rebind_http_server now binds addr s).1 ≡ false
    → (rebind_http_server now binds addr s).0 ≡ s
unfolding rebind_http_server
refused_keeps now binds addr s h = ground (arith, h)

adopt-Agreeing :
    (now : ℕ) (cfg : AgentConfig) (allowed : List Text) (s : Server)
    → Sound s.svc
    → HasDistinctNames cfg
    → Agreeing (adopt_config now cfg allowed s)
unfolding adopt_config Sound
adopt-Agreeing now cfg allowed s h d =
    let (c, a, p) = reload_complete now cfg s.svc h.0 h.1 d in
    record {
      consistent = c;
      valid = reload_config_services_keeps IsValid apply-IsValid now cfg s.svc h.1;
      distinct = d;
      agrees = a;
      stored = p;
    }

pub reload-Agreeing :
    (now : ℕ) (binds : Bool) (attrs : AttrsOutcome) (cfg : AgentConfig) (s : Server)
    → Agreeing s
    → HasDistinctNames cfg
    → Agreeing (reload now binds attrs (some cfg) s).0
unfolding reload Sound
reload-Agreeing now binds attrs cfg s a d =
    let (next, allowed) = config_with_node_attrs attrs cfg s in
    let t = rebind_http_server now binds next.server.listen s in
    elim (Bool-cases s.has_file) [
      | inl file ↦ (elim (Bool-cases t.1) [
        | inl bound ↦
            simp (file, bound)
              (adopt-Agreeing now next allowed t.0
                (rebind-Sound now binds next.server.listen s (a.consistent, a.valid))
                (attrs-HasDistinctNames attrs cfg s d))
        | inr unbound ↦
            simp (file, unbound)
              (subst Agreeing (sym (refused_keeps now binds next.server.listen s unbound)) a)
      ])
      | inr file ↦ simp file a
    ]
