-- ===== src/Agent/HealthChecker.antt =====
-- internal/agent/health.go. Each running check is a goroutine: `running` holds those that no one has
-- cancelled, and `cancels` the cancel function of a service, which is the number of its goroutine.
pub mod Running
pub mod Polled
pub mod Tests
use tailscale_metrics_discov.Common.{
  ℕ, suc, ◌*◌, ◌≡◌, Bool, true, false, not, ◌&&◌, List, [], ◌∷◌, ◌++◌, Option, none, some, leb, ltb,
  eqb, ℤ, pos, negsuc, is_positive, is_some, keep_if, if◌then◌else◌,
}
use tailscale_metrics_discov.Common.Decimal.{show}
use tailscale_metrics_discov.Common.Text.{Text, text, ◌==◌}
use tailscale_metrics_discov.Common.Dict.{Dict, lookup, insert, delete}
use tailscale_metrics_discov.Protocol.{ServiceHealth, ServiceHealthStatus}
use tailscale_metrics_discov.Config.{HealthcheckConfig}
use tailscale_metrics_discov.Agent.Registry.{Registry, second, update_health}

pub record Check : Type 0 where
  pub id : ℕ
  pub name : Text
  pub url : Text
  pub interval : ℤ
  pub timeout : ℤ

pub record HealthChecker : Type 0 where
  -- whether `Start` has set the root context
  pub started : Bool
  pub cancels : Dict ℕ
  pub running : List Check
  pub next_id : ℕ

abbrev pub new_health_checker : HealthChecker
new_health_checker = record { started = false; cancels = []; running = []; next_id = 0 }

abbrev pub default_check_interval : ℤ
default_check_interval = pos (30 * second)

abbrev pub default_check_timeout : ℤ
default_check_timeout = pos (5 * second)

abbrev pub positive_or : ℤ → ℤ → ℤ
positive_or d default = if is_positive d then d else default

unfoldable pub start : HealthChecker → HealthChecker
start h = record h { started = true }

-- A call of a cancel function.
unfoldable pub cancel : Option ℕ → List Check → List Check
cancel none cs = cs
cancel (some i) cs = keep_if (λ c. not (eqb c.id i)) cs

abbrev pub initial_status : Text → ServiceHealthStatus
initial_status url = record {
  status = ServiceHealth.unknown;
  check_url = url;
  last_check = none;
  status_code = 0;
  message = [];
}

-- `Register` for a configuration with a URL: it cancels, and if `Start` was called it starts a check
-- and sets the initial status.
unfoldable pub register_check :
    ℕ → Text → HealthcheckConfig → HealthChecker × Registry → HealthChecker × Registry
register_check now name cfg (h, reg) =
    let rest = cancel (lookup name h.cancels) h.running in
    let check : Check = record {
      id = h.next_id;
      name = name;
      url = cfg.url;
      interval = positive_or cfg.interval default_check_interval;
      timeout = positive_or cfg.timeout default_check_timeout;
    } in
    if h.started
    then (
      record h {
        cancels = insert name h.next_id h.cancels;
        running = check ∷ rest;
        next_id = suc h.next_id;
      },
      update_health now name (initial_status cfg.url) reg,
    )
    else (record h { running = rest }, reg)

unfoldable pub register :
    ℕ → Text → Option HealthcheckConfig → HealthChecker × Registry → HealthChecker × Registry
register now name none hr = hr
register now name (some cfg) hr = if cfg.url == [] then hr else register_check now name cfg hr

unfoldable pub unregister : Text → HealthChecker → HealthChecker
unregister name h = elim (lookup name h.cancels) [
  | none ↦ h
  | some i ↦ record h { cancels = delete name h.cancels; running = cancel (some i) h.running }
]

-- What `http.NewRequest` and `httpClient.Do` bring back; the texts are their errors.
pub data CheckOutcome : Type 0 where
  bad_request no_response : Text → CheckOutcome
  response : ℕ → CheckOutcome

abbrev pub is_success : ℕ → Bool
is_success code = leb 200 code && ltb code 300

unfoldable pub check_status : ℕ → Text → CheckOutcome → ServiceHealthStatus
check_status now url (bad_request e) = record {
  status = ServiceHealth.unhealthy;
  check_url = url;
  last_check = some now;
  status_code = 0;
  message = text "build request: " ++ e;
}
check_status now url (no_response e) = record {
  status = ServiceHealth.unhealthy;
  check_url = url;
  last_check = some now;
  status_code = 0;
  message = e;
}
check_status now url (response code) = record {
  status = if is_success code then ServiceHealth.healthy else ServiceHealth.unhealthy;
  check_url = url;
  last_check = some now;
  status_code = code;
  message = if is_success code then [] else text "HTTP " ++ show code;
}

-- `doCheck` begins at one time and reports at another.
unfoldable pub do_check : ℕ → ℕ → Text → Text → CheckOutcome → Registry → Registry
do_check began now name url outcome = update_health now name (check_status began url outcome)
