-- ===== src/Agent/Proxy.antt =====
-- internal/agent/proxy.go: virtual scrape endpoints. The upstream request is a parameter.
use tailscale_metrics_discov.Common.{ℕ, [], Option, none, some, if◌then◌else◌}
use tailscale_metrics_discov.Common.Text.{Text, text, ◌==◌, to_lower}
use tailscale_metrics_discov.Common.Decimal.{show}

pub record Auth : Type 0 where
  pub auth_type : Text
  pub token : Text
  pub username : Text
  pub password : Text

pub record Proxy : Type 0 where
  pub target : Text
  pub auth : Auth

-- The credentials that go upstream.
pub data Credentials : Type 0 where
  anonymous : Credentials
  bearer : Text → Credentials
  basic : Text → Text → Credentials

unfoldable pub credentials : Auth → Credentials
credentials a =
    let kind = to_lower a.auth_type in
    if kind == text "bearer"
    then bearer a.token
    else if kind == text "basic"
    then basic a.username a.password
    else anonymous

-- What `http.NewRequest` and `client.Do` bring back.
pub data Upstream : Type 0 where
  bad_request no_response : Upstream
  response : ℕ → Text → Text → Upstream

pub record Reply : Type 0 where
  pub status : ℕ
  pub upstream_status : Option Text
  pub content_type : Option Text
  pub body : Text

abbrev pub failed : ℕ → Reply
failed code = record { status = code; upstream_status = none; content_type = none; body = [] }

unfoldable pub answer : Upstream → Reply
answer bad_request = failed 500
answer no_response = failed 502
answer (response code content_type body) = record {
  status = code;
  upstream_status = some (show code);
  content_type = if content_type == [] then none else some content_type;
  body = body;
}

unfoldable pub serve_metrics : (Text → Credentials → Upstream) → Proxy → Reply
unfolding credentials answer
serve_metrics fetch p = answer (fetch p.target (credentials p.auth))
