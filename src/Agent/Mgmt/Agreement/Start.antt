-- ===== src/Agent/Mgmt/Agreement/Start.antt =====
-- An agent that starts has registered what its configuration asks for.
use mathlib.Core.List.{append_assoc, append-nil}
use tailscale_metrics_discov.Common.{
  ℕ, ◌≡◌, refl, sym, subst, Bool, true, List, [], ◌∷◌, ◌++◌, none, arith, Option-cases, inl, inr,
}
use tailscale_metrics_discov.Common.Dict.{lookup}
use tailscale_metrics_discov.Common.Sorting.{find_by}
use tailscale_metrics_discov.Config.{StaticService, BucketService, ProxyService, AgentConfig}
use tailscale_metrics_discov.Agent.Registry.{new_registry}
use tailscale_metrics_discov.Agent.HealthChecker.{start}
use tailscale_metrics_discov.Agent.Services.{Services, add_static, add_bucket, add_proxy}
use tailscale_metrics_discov.Agent.Services.Reload.{
  load_statics, load_buckets, load_proxies, load_services, proxy_auth,
}
use tailscale_metrics_discov.Agent.Server.{new_server, new_services, start_services}
use tailscale_metrics_discov.Agent.Mgmt.Agreement.{Agree, Agreeing}
use tailscale_metrics_discov.Agent.Mgmt.Agreement.Changes.{
  add_static-Agree, add_bucket-Agree, add_proxy-Agree,
}

load_statics-Agree :
    (now : ℕ) (sts : List StaticService) (s : Services) (cfg : AgentConfig)
    → Agree s cfg
    → (load_statics now sts s).1 ≡ none
    → Agree (load_statics now sts s).0 (record cfg { statics = cfg.statics ++ sts })
unfolding load_statics
load_statics-Agree now [] s cfg a h =
    subst (λ l. Agree s (record cfg { statics = l })) (sym (append-nil cfg.statics)) a
load_statics-Agree now (st ∷ sts) s cfg a h =
    let r = add_static now st.name st.targets st.labels st.healthcheck s in
    elim (Option-cases r.1) [
      | inl ok ↦
          let left : (load_statics now sts r.0).1 ≡ none = ground (arith, ok, h) in
          rw (ok, load_statics)
            (subst (λ l. Agree (load_statics now sts r.0).0 (record cfg { statics = l }))
              (append_assoc cfg.statics (st ∷ []) sts)
              (load_statics-Agree now sts r.0 (record cfg { statics = cfg.statics ++ st ∷ [] })
                (add_static-Agree now s cfg a st ok) left))
      | inr (x, failed) ↦ ground (arith, failed, h)
    ]

load_buckets-Agree :
    (now : ℕ) (bcs : List BucketService) (s : Services) (cfg : AgentConfig)
    → Agree s cfg
    → (load_buckets now bcs s).1 ≡ none
    → Agree (load_buckets now bcs s).0 (record cfg { buckets = cfg.buckets ++ bcs })
unfolding load_buckets
load_buckets-Agree now [] s cfg a h =
    subst (λ l. Agree s (record cfg { buckets = l })) (sym (append-nil cfg.buckets)) a
load_buckets-Agree now (bc ∷ bcs) s cfg a h =
    let r = add_bucket now bc.name bc.labels bc.healthcheck s in
    elim (Option-cases r.1) [
      | inl ok ↦
          let left : (load_buckets now bcs r.0).1 ≡ none = ground (arith, ok, h) in
          rw (ok, load_buckets)
            (subst (λ l. Agree (load_buckets now bcs r.0).0 (record cfg { buckets = l }))
              (append_assoc cfg.buckets (bc ∷ []) bcs)
              (load_buckets-Agree now bcs r.0 (record cfg { buckets = cfg.buckets ++ bc ∷ [] })
                (add_bucket-Agree now s cfg a bc ok) left))
      | inr (x, failed) ↦ ground (arith, failed, h)
    ]

load_proxies-Agree :
    (now : ℕ) (pcs : List ProxyService) (s : Services) (cfg : AgentConfig)
    → Agree s cfg
    → (load_proxies now pcs s).1 ≡ none
    → Agree (load_proxies now pcs s).0 (record cfg { proxies = cfg.proxies ++ pcs })
unfolding load_proxies
load_proxies-Agree now [] s cfg a h =
    subst (λ l. Agree s (record cfg { proxies = l })) (sym (append-nil cfg.proxies)) a
load_proxies-Agree now (pc ∷ pcs) s cfg a h =
    let r = add_proxy now pc.name pc.target (proxy_auth pc.auth) pc.labels pc.healthcheck s in
    elim (Option-cases r.1) [
      | inl ok ↦
          let left : (load_proxies now pcs r.0).1 ≡ none = ground (arith, ok, h) in
          rw (ok, load_proxies)
            (subst (λ l. Agree (load_proxies now pcs r.0).0 (record cfg { proxies = l }))
              (append_assoc cfg.proxies (pc ∷ []) pcs)
              (load_proxies-Agree now pcs r.0 (record cfg { proxies = cfg.proxies ++ pc ∷ [] })
                (add_proxy-Agree now s cfg a pc ok) left))
      | inr (x, failed) ↦ ground (arith, failed, h)
    ]

load_services-Agree :
    (now : ℕ) (cfg : AgentConfig) (s : Services)
    → Agree s (record cfg { statics = []; buckets = []; proxies = [] })
    → (load_services now cfg s).1 ≡ none
    → Agree (load_services now cfg s).0 cfg
unfolding load_services
load_services-Agree now cfg s a h =
    let (t, no_statics) = load_statics now cfg.statics s in
    let (u, no_buckets) = load_buckets now cfg.buckets t in
    elim (Option-cases no_statics) [
      | inr (x, failed) ↦ ground (arith, failed, h)
      | inl one ↦ (elim (Option-cases no_buckets) [
        | inr (x, failed) ↦ ground (arith, one, failed, h)
        | inl two ↦
            let three : (load_proxies now cfg.proxies u).1 ≡ none = ground (arith, one, two, h) in
            let a1 = load_statics-Agree now cfg.statics s _ a one in
            let a2 = load_buckets-Agree now cfg.buckets t _ a1 two in
            rw (one, two, load_services) (load_proxies-Agree now cfg.proxies u _ a2 three)
      ])
    ]

-- The services of a new server are those of an empty configuration.
new_services-Agree :
    (now : ℕ) (cfg : AgentConfig)
    → Agree
        (record (new_services now) { hc = start (new_services now).hc })
        (record cfg { statics = []; buckets = []; proxies = [] })
unfolding lookup find_by new_registry
new_services-Agree now cfg = record {
  consistent = λ k. (refl, refl);
  valid = record { distinct = tt; named = tt };
  distinct = record {
    statics = tt;
    buckets = tt;
    proxies = tt;
    static_bucket = λ k. refl;
    static_proxy = λ k. refl;
    bucket_proxy = λ k. refl;
  };
  stored = λ k. refl;
  agrees = λ k. refl;
}

-- If the start of a new agent registers its services without an error, then no name occurs twice in
-- its configuration, and the service list shows under every name what the configuration asks for,
-- with the stores in step and each proxy as it is configured.
pub start_services-Agreeing :
    (created now : ℕ) (cfg : AgentConfig) (has_file : Bool) (file : AgentConfig)
    → (start_services now (new_server created cfg has_file file)).1 ≡ true
    → Agreeing (start_services now (new_server created cfg has_file file)).0
unfolding start_services new_server
start_services-Agreeing created now cfg has_file file h =
    load_services-Agree now cfg _ (new_services-Agree created cfg) (ground (arith, h))
