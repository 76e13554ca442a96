-- ===== src/Agent/HealthChecker/Polled.antt =====
-- Which URLs of which services the health checker polls after each of its calls.
use tailscale_metrics_discov.Common.{
  ℕ, ◌≡◌, ◌≢◌, ap, true, List, [], ◌∷◌, some, arith, Bool-cases, inl, inr, if◌then◌else◌,
}
use tailscale_metrics_discov.Common.Text.{Text, ◌==◌, ==_iff, ==_self}
use tailscale_metrics_discov.Config.{HealthcheckConfig}
use tailscale_metrics_discov.Agent.Registry.{Registry}
use tailscale_metrics_discov.Agent.HealthChecker.{HealthChecker, register, unregister}
use tailscale_metrics_discov.Agent.HealthChecker.Running.{
  IsValid, Sets, urls, urls_of, register-Sets, unregister-Sets,
}

-- What is polled for each service after a call that sets what is polled for one.
abbrev pub Polls : Text → List Text → HealthChecker → HealthChecker → Type 0
Polls name polled h h' = (k : Text) → urls_of k h' ≡ (if name == k then polled else urls_of k h)

Sets-Polls :
    (name : Text) (polled : List Text) (h h' : HealthChecker)
    → Sets name polled h h'
    → Polls name polled h h'
Sets-Polls name polled h h' s k = elim (Bool-cases (name == k)) [
  | inl e ↦ rw (e, ← (==_iff name k).0 e) s.0
  | inr e ↦ rw e (ap urls (s.1 k (λ q. ground (arith, ==_self name, q, e))))
]

-- With `Start` called: after a check with a URL is registered for a service, that URL alone is polled
-- for it, whatever was before, and the same as before for every other service.
pub register-Polls :
    (now : ℕ) (name : Text) (cfg : HealthcheckConfig) (h : HealthChecker) (reg : Registry)
    → IsValid h
    → h.started ≡ true
    → cfg.url ≢ []
    → IsValid (register now name (some cfg) (h, reg)).0
      × Polls name (cfg.url ∷ []) h (register now name (some cfg) (h, reg)).0
register-Polls now name cfg h reg v on url =
    let (valid, sets) = register-Sets now name cfg h reg v on url in
    (valid, Sets-Polls name _ h (register now name (some cfg) (h, reg)).0 sets)

-- After the check of a service is unregistered nothing is polled for it, and the same as before for
-- every other service.
pub unregister-Polls :
    (name : Text) (h : HealthChecker)
    → IsValid h
    → IsValid (unregister name h) × Polls name [] h (unregister name h)
unregister-Polls name h v =
    let (valid, sets) = unregister-Sets name h v in
    (valid, Sets-Polls name _ h (unregister name h) sets)
