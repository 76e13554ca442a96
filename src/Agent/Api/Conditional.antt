-- ===== src/Agent/Api/Conditional.antt =====
-- A 304 for the service list, against everything that the agent does between two requests.
use tailscale_metrics_discov.Common.{
  ℕ, ◌<◌, ◌≡◌, ◌⊎◌, inl, inr, refl, ◌∙◌, Bool, true, false, leb, List, [], ◌∷◌, ◌++◌, Option, none,
  some, arith, Bool-cases,
}
use tailscale_metrics_discov.Common.Text.{Text, ◌==◌, ==_iff}
use tailscale_metrics_discov.Protocol.{ServiceHealthStatus}
use tailscale_metrics_discov.Agent.Bucket.{Decoders, Method, PushRequest}
use tailscale_metrics_discov.Agent.Registry.{
  health_updated, touched, apply, update_health, touch_services, list_without_health, truncate,
}
use tailscale_metrics_discov.Agent.Registry.Modified.{
  IsAligned, apply-Tracked, apply-IsAligned, not_modified_since, next_modified_at-later,
}
use tailscale_metrics_discov.Agent.Resolve.{Interfaces}
use tailscale_metrics_discov.Agent.Server.{Server, AttrsOutcome, load_node_attrs, clear_node_attrs}
use tailscale_metrics_discov.Agent.Mgmt.{Writes, Request, serve}
use tailscale_metrics_discov.Agent.Routes.{handle_push}
use tailscale_metrics_discov.Agent.Routes.Isolation.{handle_push-reg}
use tailscale_metrics_discov.Agent.Api.{
  Daemon, NodeAddress, set_self_ip, detect_and_set_self_ip, services_body, check_not_modified,
  handle_services, first_address, preferred, port_of, same_addresses,
}
use tailscale_metrics_discov.Agent.Api.Watched.{Watched}
use tailscale_metrics_discov.Agent.Api.Watched.Listen.{load_node_attrs-Watched}
use tailscale_metrics_discov.Agent.Api.Watched.Serve.{serve-Watched}

abbrev pub with_server : Server → Daemon → Daemon
with_server t d = record d { srv = t }

abbrev pub checked_server : ℕ → Text → ServiceHealthStatus → Server → Server
checked_server now name h s = record s {
  svc = record s.svc { reg = update_health now name h s.svc.reg };
}

abbrev pub pushed_server : Decoders → PushRequest → Text → Server → Server
pushed_server k r path s = record s { svc = (handle_push k r path s.svc).0 }

-- What a running agent does: management requests, reloads among them, health checks, pushes, and the
-- changes of the tailnet that it follows.
pub data Step : Daemon → Daemon → Type 0 where
  managed :
      (now : ℕ) (w : Writes) (req : Request) (d : Daemon)
      → Step d (with_server (serve now w req d.srv).0 d)
  attrs_loaded :
      (now : ℕ) (binds : Bool) (attrs : AttrsOutcome) (d : Daemon)
      → Step d (with_server (load_node_attrs now binds attrs d.srv) d)
  attrs_cleared : (d : Daemon) → Step d (with_server (clear_node_attrs d.srv) d)
  ip_detected :
      (now : ℕ) (status : Option (List NodeAddress)) (d : Daemon)
      → Step d (detect_and_set_self_ip now status d)
  health_checked :
      (now : ℕ) (name : Text) (h : ServiceHealthStatus) (d : Daemon)
      → Step d (with_server (checked_server now name h d.srv) d)
  pushed :
      (k : Decoders) (r : PushRequest) (path : Text) (d : Daemon)
      → Step d (with_server (pushed_server k r path d.srv) d)

pub data Reach : Daemon → Daemon → Type 0 where
  here : (d : Daemon) → Reach d d
  onward : (d e f : Daemon) → Step d e → Reach e f → Reach d f

-- It listens on the address of its configuration, and the times are in whole seconds.
abbrev pub Running : Daemon → Type 0
Running d = IsAligned d.srv.svc.reg × (d.srv.listening ≡ some d.srv.cfg.server.listen)

-- The time has moved on, or all that the list is made of is as it was.
abbrev Moved : Daemon → Daemon → Type 0
Moved d e =
    (e.extra_targets ≡ d.extra_targets)
    × ((d.srv.svc.reg.svc_modified_at < e.srv.svc.reg.svc_modified_at)
        ⊎ ((d.srv.svc.reg.svc_modified_at ≡ e.srv.svc.reg.svc_modified_at)
            × (list_without_health e.srv.svc.reg ≡ list_without_health d.srv.svc.reg)
            × (e.srv.cfg.server.listen ≡ d.srv.cfg.server.listen)
            × (e.ts_ipv4 ≡ d.ts_ipv4)
            × (e.ts_ipv6 ≡ d.ts_ipv6)))

-- A server watched from now on.
Running-Watched : (d : Daemon) → Running d → Watched d.srv.svc.reg d.srv.cfg.server.listen d.srv
Running-Watched d h = ((h.0, inr (refl, refl, refl)), h.1)

Watched-Moved :
    (t : Server) (d : Daemon)
    → Watched d.srv.svc.reg d.srv.cfg.server.listen t
    → Running (with_server t d) × Moved d (with_server t d)
Watched-Moved t d w = ((w.0.0, w.1), (refl, ground (arith, w.0.1)))

set_self_ip-Moved :
    (now : ℕ) (ipv4 ipv6 port : Text) (d : Daemon)
    → Running d
    → Running (set_self_ip now ipv4 ipv6 port d) × Moved d (set_self_ip now ipv4 ipv6 port d)
unfolding set_self_ip apply touch_services
set_self_ip-Moved now ipv4 ipv6 port d h =
    let addr = preferred ipv4 ipv6 ++ b':' ∷ port in
    elim (Bool-cases (same_addresses addr ipv4 ipv6 d)) [
      | inl e ↦ simp e (
        h,
        (
          refl,
          inr (
            refl,
            refl,
            refl,
            ground (arith, e, ==_iff d.ts_ipv4 ipv4),
            ground (arith, e, ==_iff d.ts_ipv6 ipv6),
          ),
        ),
      )
      | inr e ↦ simp e (
        (apply-IsAligned now touched d.srv.svc.reg h.0, h.1),
        (refl, inl (next_modified_at-later now d.srv.svc.reg.svc_modified_at)),
      )
    ]

stayed : (d : Daemon) → Running d → Running d × Moved d d
stayed d h = (h, (refl, inr (refl, refl, refl, refl, refl)))

Step-Moved : (d e : Daemon) → Step d e → Running d → Running e × Moved d e
unfolding detect_and_set_self_ip clear_node_attrs handle_push apply
Step-Moved d _ (managed now w req _) h =
    Watched-Moved (serve now w req d.srv).0 d
      (serve-Watched _ _ now w req d.srv (Running-Watched d h))
Step-Moved d _ (attrs_loaded now binds attrs _) h =
    Watched-Moved (load_node_attrs now binds attrs d.srv) d
      (load_node_attrs-Watched _ _ now binds attrs d.srv (Running-Watched d h))
Step-Moved d _ (attrs_cleared _) h = stayed d h
Step-Moved d _ (ip_detected now none _) h = stayed d h
Step-Moved d _ (ip_detected now (some addresses) _) h =
    let ipv4 = first_address true addresses in
    let ipv6 = first_address false addresses in
    let port = port_of d.srv.cfg.server.listen in
    elim (Bool-cases (port == [])) [
      | inl e ↦ rw (e, detect_and_set_self_ip) (stayed d h)
      | inr e ↦ (elim (Bool-cases (preferred ipv4 ipv6 == [])) [
        | inl p ↦ rw (e, p, detect_and_set_self_ip) (stayed d h)
        | inr p ↦ rw (e, p, detect_and_set_self_ip) (set_self_ip-Moved now ipv4 ipv6 port d h)
      ])
    ]
Step-Moved d _ (health_checked now name s _) h = (
  (apply-IsAligned now (health_updated name s) d.srv.svc.reg h.0, h.1),
  (refl, ground (arith, apply-Tracked now (health_updated name s) d.srv.svc.reg)),
)
Step-Moved d _ (pushed k r path _) h =
    let kept = handle_push-reg k r path d.srv.svc in simp kept (stayed d h)

Reach-Moved : (d e : Daemon) → Reach d e → Running d → Running e × Moved d e
Reach-Moved d _ (here _) h = stayed d h
Reach-Moved d f (onward _ e _ s r) h =
    let (running, first) = Step-Moved d e s h in
    let (at_last, later) = Reach-Moved e f r running in
    (at_last, (later.0 ∙ first.0, ground (arith, first.1, later.1)))

-- The body is made of what is compared.
body-same :
    (interface_ip : Interfaces) (is6 : Bool) (d e : Daemon)
    → list_without_health e.srv.svc.reg ≡ list_without_health d.srv.svc.reg
    → e.srv.cfg.server.listen ≡ d.srv.cfg.server.listen
    → e.ts_ipv4 ≡ d.ts_ipv4
    → e.ts_ipv6 ≡ d.ts_ipv6
    → e.extra_targets ≡ d.extra_targets
    → services_body interface_ip is6 e ≡ services_body interface_ip is6 d
unfolding services_body
body-same interface_ip is6 d e l a v4 v6 x = simp (l, a, v4, v6, x) refl

-- A client asks a running agent for the service list and gets a 200 with its time. Whatever the agent
-- does then, if it answers 304 to the same client when asked with that time, then the list that it
-- would send is the one it sent; asked of HTTP times is that a time that is written and read again is
-- the same to the second, and of the interfaces that their addresses are the same.
pub handle_services-current :
    (parse_time : Text → Option ℕ)
    → (format_time : ℕ → Text) → ((t : ℕ) → parse_time (format_time t) ≡ some (truncate t))
    → (interface_ip : Interfaces) (is6 : Bool) (d e : Daemon) → Running d
    → Reach d e
    → (handle_services parse_time format_time interface_ip Method.get
        (format_time d.srv.svc.reg.svc_modified_at)
        is6
        e).code
      ≡ 304
    → services_body interface_ip is6 e ≡ services_body interface_ip is6 d
unfolding handle_services check_not_modified not_modified_since
handle_services-current parse_time format_time inverse interface_ip is6 d e h r c =
    let (running, moved) = Reach-Moved d e r h in
    let time = d.srv.svc.reg.svc_modified_at in
    let still : leb (truncate e.srv.svc.reg.svc_modified_at) (truncate (truncate time)) ≡ true =
      ground (arith, c, inverse time) in
    elim moved.1 [
      | inl later ↦ ground (arith, still, later, h.0.0, running.0.0)
      | inr (t, l, a, v4, v6) ↦ body-same interface_ip is6 d e l a v4 v6 moved.0
    ]
