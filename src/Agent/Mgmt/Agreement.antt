-- ===== src/Agent/Mgmt/Agreement.antt =====
-- The services of an agent are those of its configuration, and management requests keep them so.
pub mod Lists
pub mod Proxies
pub mod Changes
pub mod Removals
pub mod Reload
pub mod Serve
pub mod Start
use tailscale_metrics_discov.Common.{
  arith, ℕ, ◌≡◌, refl, sym, ap, ◌∙◌, subst, Bool, true, false, List, Option, none, some,
  if◌then◌else◌, Bool-cases, inl, inr,
}
use tailscale_metrics_discov.Common.Text.{Text}
use tailscale_metrics_discov.Common.Dict.{lookup, has}
use tailscale_metrics_discov.Config.{AgentConfig}
use tailscale_metrics_discov.Agent.Error.{Error}
use tailscale_metrics_discov.Agent.Registry.{Registry}
use tailscale_metrics_discov.Agent.Registry.Order.{IsValid}
use tailscale_metrics_discov.Agent.Services.{Services}
use tailscale_metrics_discov.Agent.Services.Consistent.{IsConsistent, is_bucket, is_proxy}
use tailscale_metrics_discov.Agent.Services.Reload.Listed.{listed, listed_in}
use tailscale_metrics_discov.Agent.Services.Reload.Proxies.{proxy_of}
use tailscale_metrics_discov.Agent.Services.Reload.Loops.{proxy_name}
use tailscale_metrics_discov.Common.Sorting.{find_by}
use mathlib.Core.Option
use tailscale_metrics_discov.Agent.Services.Reload.Configured.{HasDistinctNames, configured}
use tailscale_metrics_discov.Agent.Server.{Server, save_config}
use tailscale_metrics_discov.Agent.Mgmt.{Writes, settle, commit}
use tailscale_metrics_discov.Agent.Mgmt.Kept.{Kept}

-- The service list shows under each name what the configuration asks for, and each proxy has the
-- target and the credentials that are configured.
pub record Agree (s : Services) (cfg : AgentConfig) : Type 0 where
  pub consistent : IsConsistent s
  pub valid : IsValid s.reg
  pub distinct : HasDistinctNames cfg
  pub agrees : (k : Text) → listed s k ≡ configured cfg k
  pub stored :
      (k : Text) → lookup k s.proxies ≡ Option.map proxy_of (find_by proxy_name k cfg.proxies)

-- Only the registry and the stores matter.
Agree-same :
    (s t : Services) (cfg : AgentConfig)
    → t.reg ≡ s.reg
    → t.buckets ≡ s.buckets
    → t.proxies ≡ s.proxies
    → Agree s cfg
    → Agree t cfg
Agree-same s t cfg r b p a = record {
  consistent = λ k. (
    ap (has k) b
        ∙ (a.consistent k).0
        ∙ sym (ap (λ (q : Registry). is_bucket (lookup k q.entries)) r),
    ap (has k) p
        ∙ (a.consistent k).1
        ∙ sym (ap (λ (q : Registry). is_proxy (lookup k q.entries)) r),
  );
  valid = subst IsValid (sym r) a.valid;
  distinct = a.distinct;
  agrees = λ k. ap (λ (q : Registry). listed_in q k) r ∙ a.agrees k;
  stored = λ k. ap (lookup k) p ∙ a.stored k;
}

-- A change that succeeds agrees with the next configuration, one that fails with the old one.
abbrev pub Lands : AgentConfig → AgentConfig → Services × Option Error → Type 0
Lands old next (t, none) = Agree t next
Lands old next (t, some e) = Agree t old

pub lands :
    (old next : AgentConfig) (s : Services) (r : Services × Option Error)
    → Agree s old
    → Kept s r
    → (r.1 ≡ none → Agree r.0 next)
    → Lands old next r
lands old next s (t, none) a k h = h refl
lands old next s (t, some e) a k h = Agree-same s t old k.0 k.1 k.2 a

abbrev pub Agreeing : Server → Type 0
Agreeing s = Agree s.svc s.cfg

save_config-keeps :
    (writes : Bool) (cfg : AgentConfig) (s : Server)
    → ((save_config writes cfg s).0.svc ≡ s.svc) × ((save_config writes cfg s).0.cfg ≡ s.cfg)
unfolding save_config
save_config-keeps writes cfg s = ground arith

settle-Agreeing :
    (w : Writes) (next : AgentConfig) (refused : ℕ) (r : Services × Option Error) (s t : Server)
    → t.cfg ≡ s.cfg
    → Lands s.cfg next r
    → Agreeing (settle w s.cfg next refused r t).0
unfolding settle
settle-Agreeing w next refused (svc, none) s t c l = l
settle-Agreeing w next refused (svc, some e) s t c l =
    let kept = save_config-keeps w.rollback s.cfg (record t { svc = svc }) in
    subst (Agree _) (sym (kept.1 ∙ c)) (subst (λ v. Agree v s.cfg) (sym kept.0) l)

pub commit-Agreeing :
    (w : Writes) (next : AgentConfig) (refused : ℕ) (change : Services → Services × Option Error)
    (s : Server)
    → Agreeing s
    → Lands s.cfg next (change s.svc)
    → Agreeing (commit w next refused change s).0
unfolding commit
commit-Agreeing w next refused change s a l =
    let t = (save_config w.first next s).0 in
    let kept = save_config-keeps w.first next s in
    elim (Bool-cases (save_config w.first next s).1) [
      | inl saved ↦
          rw (saved, commit)
            (settle-Agreeing w next refused (change t.svc) s t kept.1
              (subst (λ v. Lands s.cfg next (change v)) (sym kept.0) l))
      | inr lost ↦
          rw (lost, commit)
            (subst (Agree _) (sym kept.1) (subst (λ v. Agree v s.cfg) (sym kept.0) a))
    ]
