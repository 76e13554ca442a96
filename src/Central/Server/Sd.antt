-- ===== src/Central/Server/Sd.antt =====
-- What Prometheus gets after a refresh.
use mathlib.Core.List.{Perm}
use mathlib.Core.List.Perm
use tailscale_metrics_discov.Common.{
  ℕ, ◌≡◌, refl, Bool, true, false, ◌||◌, List, [], ◌++◌, Option, none, some, Bool-cases, inl, inr,
}
use tailscale_metrics_discov.Common.Text.{Text, text, ◌==◌}
use tailscale_metrics_discov.Protocol.{SdTarget}
use tailscale_metrics_discov.Agent.Bucket.{Method}
use tailscale_metrics_discov.Central.Discovery.{PeerStatus}
use tailscale_metrics_discov.Central.Refresh.{World, PeerResult, refresh}
use tailscale_metrics_discov.Central.Refresh.Targets.{ok_targets, refresh-targets}
use tailscale_metrics_discov.Central.Server.{Server, auth_middleware, handle_sd, serve_sd}

-- The requests that bring the token, where there is one.
abbrev pub permitted : Text → Server → Bool
permitted header s = s.cfg.server.token == [] || header == (text "Bearer " ++ s.cfg.server.token)

-- A list of targets, up to its order, or a refusal.
abbrev pub Answers : Bool → List SdTarget → ℕ × Option (List SdTarget) → Type 0
Answers false wanted r = r ≡ (401, none)
Answers true wanted (code, none) = ⊥
Answers true wanted (code, some ts) = (code ≡ 200) × Perm ts wanted

served :
    (header : Text) (s : Server) (wanted : List SdTarget)
    → Perm (s.col.targets ++ s.self_targets) wanted
    → Answers (permitted header s) wanted (serve_sd header Method.get s)
unfolding serve_sd auth_middleware handle_sd
served header s wanted p = elim (Bool-cases (s.cfg.server.token == [])) [
  | inl e ↦ simp e (refl, p)
  | inr e ↦ (elim (Bool-cases (header == (text "Bearer " ++ s.cfg.server.token))) [
    | inl h ↦ simp (e, h) (refl, p)
    | inr h ↦ simp (e, h) refl
  ])
]

abbrev pub refreshed_server : World → Server → Server
refreshed_server w s = record s { col = refresh w s.disc s.col }

-- After a refresh that reaches the local daemon, in whatever order its results arrive, a GET of
-- /api/v1/sd is answered 401 unless it brings the configured token, and otherwise, up to the order,
-- with the targets of the services of the healthy peers and the central's own.
pub serve_sd-refreshed :
    (w : World) (s : Server) (st : List PeerStatus) (header : Text)
    → w.status ≡ some st
    → ((rs : List PeerResult) → Perm rs (w.arrival rs))
    → Answers
        (permitted header s)
        (ok_targets (refreshed_server w s).col.peers ++ s.self_targets)
        (serve_sd header Method.get (refreshed_server w s))
serve_sd-refreshed w s st header up arrival =
    served header (refreshed_server w s) _
      (Perm.append_right s.self_targets (refresh-targets w s.disc s.col st up arrival))
