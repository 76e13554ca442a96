-- ===== src/Agent/HealthChecker/Tests.antt =====
-- Health checks of concrete services: the theorems at work.
use tailscale_metrics_discov.Common.{◌≡◌, ◌≢◌, refl, true, [], ◌∷◌, some, pos, arith}
use tailscale_metrics_discov.Common.Text.{text}
use tailscale_metrics_discov.Common.Dict.{lookup}
use tailscale_metrics_discov.Config.{HealthcheckConfig}
use tailscale_metrics_discov.Agent.Registry.{new_registry}
use tailscale_metrics_discov.Agent.HealthChecker.{
  HealthChecker, start, new_health_checker, register,
}
use tailscale_metrics_discov.Agent.HealthChecker.Running.{IsValid}
use tailscale_metrics_discov.Agent.HealthChecker.Polled.{Polls, register-Polls}

abbrev web_check : HealthcheckConfig
web_check = record { url = text "http://web/"; interval = pos 0; timeout = pos 0 }

abbrev started : HealthChecker
started = start new_health_checker

started-IsValid : IsValid started
unfolding start lookup
started-IsValid = record {
  owned = tt;
  numbered = (λ k i e. ground (arith, e), λ j k i e f. ground (arith, e));
  idle = λ off. refl;
}

has_url : web_check.url ≢ []
unfolding text
has_url e = ground arith

is_started : started.started ≡ true
unfolding start
is_started = refl

abbrev checking : HealthChecker
checking = (register 5 (text "web") (some web_check) (started, new_registry 5)).0

register-Polls_example :
    IsValid checking × Polls (text "web") (text "http://web/" ∷ []) started checking
register-Polls_example =
    register-Polls 5 (text "web") web_check started (new_registry 5) started-IsValid is_started
      has_url
