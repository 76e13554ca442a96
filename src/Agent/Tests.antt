-- ===== src/Agent/Tests.antt =====
-- Authentication and the resolution of targets on concrete requests.
use tailscale_metrics_discov.Common.{◌≡◌, ◌↔◌, ◌⊎◌, true, false, [], ◌∷◌, none, some, arith}
use tailscale_metrics_discov.Common.Text.{text, Free}
use tailscale_metrics_discov.Agent.Auth.{
  Policy, Caller, auth_middleware, HasAllowedTag, HasToken, IsOpen, auth_middleware_iff,
}
use tailscale_metrics_discov.Agent.Resolve.{Interfaces, ResolveContext, resolve_target}
use tailscale_metrics_discov.Agent.Resolve.Fuel.{Run, resolve_target-Run}
use tailscale_metrics_discov.Agent.Resolve.Template.{
  Segments, IsPlain, written, filled, resolve_target-filled,
}

abbrev policy : Policy
policy = record {
  token = text "secret";
  allowed_tags = text "tag:central" ∷ [];
  allow_anonymous = false;
}

abbrev caller : Caller
caller = record { node_tags = some (text "tag:other" ∷ []); authorization = text "Bearer secret" }

auth_middleware_iff_example :
    (auth_middleware policy caller ≡ true)
    ↔ (HasAllowedTag policy caller.node_tags ⊎ (HasToken policy caller ⊎ IsOpen policy))
auth_middleware_iff_example = auth_middleware_iff policy caller

abbrev no_interfaces : Interfaces
no_interfaces name v6 = none

abbrev addresses : ResolveContext
addresses = record { ts_ipv4 = text "100.64.0.1"; ts_ipv6 = []; self_addr = text "100.64.0.1:9001" }

abbrev segments : Segments
segments = (text "http://", text "ts.ip") ∷ []

segments-IsPlain : IsPlain segments
unfolding text
segments-IsPlain = ground arith

tail-Free : Free b'{' (text ":9100")
unfolding text
tail-Free = ground arith

resolve_target-Run_example :
    Run no_interfaces addresses
      (text "{ts.ip}:9100")
      (resolve_target no_interfaces addresses (text "{ts.ip}:9100"))
resolve_target-Run_example = resolve_target-Run no_interfaces addresses (text "{ts.ip}:9100")

resolve_target-filled_example :
    resolve_target no_interfaces addresses (written segments (text ":9100"))
    ≡ filled no_interfaces addresses segments (text ":9100")
resolve_target-filled_example =
    resolve_target-filled no_interfaces addresses segments (text ":9100") segments-IsPlain tail-Free
