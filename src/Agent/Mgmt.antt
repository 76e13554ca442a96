-- ===== src/Agent/Mgmt.antt =====
-- internal/agent/mgmt.go: the handlers of the management API that change the configuration. Each saves
-- the next configuration, applies the change, and saves the old one again if the change is refused.
-- A request is its method and its decoded body, `none` for one that does not decode.
pub mod Clone
pub mod Kept
pub mod Atomic
pub mod Agreement
pub mod Tests
use tailscale_metrics_discov.Common.{
  ℕ, Bool, true, false, not, ◌&&◌, ◌||◌, List, [], ◌∷◌, ◌++◌, Option, none, some, ℤ, pos, keep_if,
  is_some, if◌then◌else◌,
}
use tailscale_metrics_discov.Common.Text.{Text, text, ◌==◌}
use tailscale_metrics_discov.Common.Dict.{Dict, lookup, insert}
use tailscale_metrics_discov.Config
use tailscale_metrics_discov.Config.{
  HealthcheckConfig, StaticService, BucketService, ProxyService, AgentConfig,
}
use tailscale_metrics_discov.Agent.Error.{Error}
use tailscale_metrics_discov.Agent.Bucket.{Bucket, Method, clear}
use tailscale_metrics_discov.Agent.Proxy.{Auth}
use tailscale_metrics_discov.Agent.Services.{
  Services, add_static, remove_static, add_bucket, remove_bucket, add_proxy, remove_proxy,
}
use tailscale_metrics_discov.Agent.Services.Reload.{proxy_auth}
use tailscale_metrics_discov.Agent.Server.{Server, AttrsOutcome, save_config, reload}

-- Whether the first write and the one of the rollback succeed.
pub record Writes : Type 0 where
  pub first : Bool
  pub rollback : Bool

-- &config.HealthcheckConfig{URL: url}, or nil
abbrev pub healthcheck_of : Text → Option HealthcheckConfig
healthcheck_of url =
    if url == [] then none else some (record { url = url; interval = pos 0; timeout = pos 0 })

-- The end of a handler, after the change of the services: the state that it left, and its error.
unfoldable pub settle :
    Writes → AgentConfig → AgentConfig → ℕ → Services × Option Error → Server → Server × ℕ
settle w old next refused (svc, none) s = (record s { svc = svc; cfg = next }, 200)
settle w old next refused (svc, some e) s =
    let (t, restored) = save_config w.rollback old (record s { svc = svc }) in
    (t, if restored then refused else 500)

-- The text that the handlers share: `refused` is the status of a change that is refused.
unfoldable pub commit :
    Writes → AgentConfig → ℕ → (Services → Services × Option Error) → Server → Server × ℕ
commit w next refused change s =
    let (t, saved) = save_config w.first next s in
    if saved then settle w s.cfg next refused (change t.svc) t else (t, 500)

-- The method and the body are looked at first.
abbrev pub when_post :
    {A : Type 0} → Method → Option A → (A → Server → Server × ℕ) → Server → Server × ℕ
when_post Method.post none run s = (s, 400)
when_post Method.post (some a) run s = run a s
when_post _ body run s = (s, 405)

pub record StaticRequest : Type 0 where
  pub name : Text
  pub targets : List Text
  pub labels : Dict Text
  pub healthcheck_url : Text

unfoldable pub add_service : ℕ → Writes → StaticRequest → Server → Server × ℕ
add_service now w req s =
    let hc_cfg = healthcheck_of req.healthcheck_url in
    let st : StaticService = record {
      name = req.name;
      targets = req.targets;
      labels = req.labels;
      healthcheck = hc_cfg;
    } in
    commit w (record s.cfg { statics = s.cfg.statics ++ st ∷ [] }) 409
      (add_static now req.name req.targets req.labels hc_cfg) s

unfoldable pub remove_service : ℕ → Writes → Text → Server → Server × ℕ
remove_service now w name s =
    commit w (record s.cfg { statics = keep_if (λ v. not (v.name == name)) s.cfg.statics }) 404
      (remove_static now name) s

pub record BucketRequest : Type 0 where
  pub name : Text
  pub labels : Dict Text
  pub healthcheck_url : Text

unfoldable pub add_bucket_service : ℕ → Writes → BucketRequest → Server → Server × ℕ
add_bucket_service now w req s =
    let hc_cfg = healthcheck_of req.healthcheck_url in
    let bc : BucketService = record {
      name = req.name;
      labels = req.labels;
      healthcheck = hc_cfg;
    } in
    commit w (record s.cfg { buckets = s.cfg.buckets ++ bc ∷ [] }) 409
      (add_bucket now req.name req.labels hc_cfg) s

unfoldable pub remove_bucket_service : ℕ → Writes → Text → Server → Server × ℕ
remove_bucket_service now w name s =
    commit w (record s.cfg { buckets = keep_if (λ v. not (v.name == name)) s.cfg.buckets }) 404
      (remove_bucket now name) s

unfoldable pub clear_bucket : Text → Server → Server × ℕ
clear_bucket name s = elim (lookup name s.svc.buckets) [
  | none ↦ (s, 404)
  | some b ↦
      (record s { svc = record s.svc { buckets = insert name (clear b) s.svc.buckets } }, 200)
]

pub record ProxyRequest : Type 0 where
  pub name : Text
  pub target : Text
  pub auth : Config.ProxyAuth
  pub labels : Dict Text
  pub healthcheck_url : Text

-- The credentials decide where the request names no type; `none` if both kinds are given.
unfoldable pub detect_auth_type : Config.ProxyAuth → Option Text
detect_auth_type a =
    let has_token = not (a.token == []) in
    let has_basic = not (a.username == []) || not (a.password == []) in
    if a.type == [] || a.type == text "none"
    then (if has_token && has_basic
        then none
        else some (if has_token then text "bearer" else if has_basic then text "basic" else a.type))
    else some a.type

unfoldable pub add_typed_proxy : ℕ → Writes → Text → ProxyRequest → Server → Server × ℕ
add_typed_proxy now w auth_type req s =
    let hc_cfg = healthcheck_of req.healthcheck_url in
    let auth : Config.ProxyAuth = record req.auth { type = auth_type } in
    let pc : ProxyService = record {
      name = req.name;
      target = req.target;
      auth = auth;
      labels = req.labels;
      healthcheck = hc_cfg;
    } in
    commit w (record s.cfg { proxies = s.cfg.proxies ++ pc ∷ [] }) 409
      (add_proxy now req.name req.target (proxy_auth auth) req.labels hc_cfg) s

unfoldable pub add_proxy_service : ℕ → Writes → ProxyRequest → Server → Server × ℕ
add_proxy_service now w req s = elim (detect_auth_type req.auth) [
  | none ↦ (s, 400)
  | some auth_type ↦ add_typed_proxy now w auth_type req s
]

unfoldable pub remove_proxy_service : ℕ → Writes → Text → Server → Server × ℕ
remove_proxy_service now w name s =
    commit w (record s.cfg { proxies = keep_if (λ v. not (v.name == name)) s.cfg.proxies }) 404
      (remove_proxy now name) s

-- The requests that change something. A reload answers 200 whether or not it fails.
pub data Request : Type 0 where
  service_add : StaticRequest → Request
  bucket_add : BucketRequest → Request
  proxy_add : ProxyRequest → Request
  service_remove bucket_remove bucket_clear proxy_remove : Text → Request
  config_reload : Bool → AttrsOutcome → Option AgentConfig → Request

unfoldable pub serve : ℕ → Writes → Request → Server → Server × ℕ
serve now w (service_add req) s = add_service now w req s
serve now w (bucket_add req) s = add_bucket_service now w req s
serve now w (proxy_add req) s = add_proxy_service now w req s
serve now w (service_remove name) s = remove_service now w name s
serve now w (bucket_remove name) s = remove_bucket_service now w name s
serve now w (bucket_clear name) s = clear_bucket name s
serve now w (proxy_remove name) s = remove_proxy_service now w name s
serve now w (config_reload binds attrs loaded) s = ((reload now binds attrs loaded s).0, 200)

-- A request as it arrives.
unfoldable pub handle : ℕ → Writes → Method → Option Request → Server → Server × ℕ
handle now w method body s = when_post method body (serve now w) s
