-- ===== src/Agent/Mgmt/Atomic.antt =====
-- A management request takes effect as a whole or not at all.
use tailscale_metrics_discov.Common.{
  ℕ, ◌≡◌, ◌⊎◌, inl, inr, refl, sym, ◌∙◌, subst, Bool, true, false, Option, none, some, Option-cases,
  Bool-cases, if◌then◌else◌,
}
use tailscale_metrics_discov.Common.Dict.{lookup}
use tailscale_metrics_discov.Config.{AgentConfig}
use tailscale_metrics_discov.Agent.Error.{Error}
use tailscale_metrics_discov.Agent.Services.{Services}
use tailscale_metrics_discov.Agent.Services.Consistent.{IsConsistent}
use tailscale_metrics_discov.Agent.Server.{Server, save_config}
use tailscale_metrics_discov.Agent.Mgmt.{
  Writes, Request, ProxyRequest, service_add, bucket_add, proxy_add, service_remove, bucket_remove,
  bucket_clear, proxy_remove, config_reload, settle, commit, serve, add_service, remove_service,
  add_bucket_service, remove_bucket_service, clear_bucket, add_proxy_service, add_typed_proxy,
  remove_proxy_service, detect_auth_type,
}
use tailscale_metrics_discov.Agent.Mgmt.Kept.{
  Kept, Kept-add_static, Kept-remove_static, Kept-add_bucket, Kept-remove_bucket, Kept-add_proxy,
  Kept-remove_proxy,
}

-- The configuration that a restart would find.
abbrev pub persisted : Server → AgentConfig
persisted s = if s.has_file then s.file else s.cfg

-- The same configuration, in memory and in the file, and the same services.
abbrev pub Untouched : Server → Server → Type 0
Untouched s t =
    (t.cfg ≡ s.cfg)
    × (persisted t ≡ persisted s)
    × (t.svc.reg ≡ s.svc.reg)
    × (t.svc.buckets ≡ s.svc.buckets)
    × (t.svc.proxies ≡ s.svc.proxies)

-- In step with the file, and done or undone.
abbrev Atomic : Server → Server × ℕ → Type 0
Atomic s (t, code) = (persisted t ≡ t.cfg) × ((code ≡ 200) ⊎ Untouched s t)

settle-Atomic :
    (w : Writes) (next : AgentConfig) (refused : ℕ) (r : Services × Option Error) (s t : Server)
    → w.rollback ≡ true
    → persisted s ≡ s.cfg
    → t.cfg ≡ s.cfg
    → t.has_file ≡ s.has_file
    → persisted (record t { cfg = next }) ≡ next
    → Kept s.svc r
    → Atomic s (settle w s.cfg next refused r t)
unfolding settle save_config
settle-Atomic w next refused (svc, none) s t r p c h n k = (n, inl refl)
settle-Atomic w next refused (svc, some e) s t r p c h n k = elim (Bool-cases s.has_file) [
  | inl on ↦
      let on' : t.has_file ≡ true = h ∙ on in simp (on', r) (sym c, inr (c, sym p, k.0, k.1, k.2))
  | inr off ↦
      let off' : t.has_file ≡ false = h ∙ off in simp off' (refl, inr (c, c ∙ sym p, k.0, k.1, k.2))
]

saved_settles :
    (w : Writes) (next : AgentConfig) (refused : ℕ) (change : Services → Services × Option Error)
    (s : Server)
    → s.has_file ≡ true
    → w.first ≡ true
    → settle w s.cfg next refused (change s.svc) (record s { file = next })
      ≡ commit w next refused change s
unfolding commit save_config
saved_settles w next refused change s on ok = simp (on, ok)

unsaved_settles :
    (w : Writes) (next : AgentConfig) (refused : ℕ) (change : Services → Services × Option Error)
    (s : Server)
    → s.has_file ≡ false
    → settle w s.cfg next refused (change s.svc) s ≡ commit w next refused change s
unfolding commit save_config
unsaved_settles w next refused change s off = simp off

commit-Atomic :
    (w : Writes) (next : AgentConfig) (refused : ℕ) (change : Services → Services × Option Error)
    (s : Server)
    → w.rollback ≡ true
    → persisted s ≡ s.cfg
    → Kept s.svc (change s.svc)
    → Atomic s (commit w next refused change s)
unfolding commit save_config
commit-Atomic w next refused change s r p k = elim (Bool-cases s.has_file) [
  | inl on ↦ (elim (Bool-cases w.first) [
    | inl ok ↦ subst (Atomic s) (saved_settles w next refused change s on ok) (
        settle-Atomic w next refused (change s.svc) s (record s { file = next }) r p refl refl
          (simp on refl) k)
    | inr fail ↦ simp (on, fail) (simp on at p, inr (refl, refl, refl, refl, refl))
  ])
  | inr off ↦
      subst (Atomic s) (unsaved_settles w next refused change s off)
        (settle-Atomic w next refused (change s.svc) s s r p refl refl (simp off refl) k)
]

abbrev pub is_reload : Request → Bool
is_reload (config_reload binds attrs loaded) = true
is_reload _ = false

detect-Atomic :
    (now : ℕ) (w : Writes) (req : ProxyRequest) (s : Server)
    → w.rollback ≡ true
    → persisted s ≡ s.cfg
    → Atomic s (add_proxy_service now w req s)
unfolding add_proxy_service add_typed_proxy
detect-Atomic now w req s r p = elim (Option-cases (detect_auth_type req.auth)) [
  | inl e ↦ rw (e, add_proxy_service) (p, inr (refl, refl, refl, refl, refl))
  | inr (t, e) ↦
      rw (e, add_proxy_service)
        (commit-Atomic w _ 409 _ s r p
          (Kept-add_proxy now req.name req.target _ req.labels _ s.svc))
]

-- Whatever a management request other than a reload asks for, and whether or not the first write
-- succeeds: if the rollback can be written, memory and file agree before, and the stores of buckets and
-- proxies are in step with the registry, then memory and file agree after, and the request is answered
-- 200, or it leaves configuration, file, registry, buckets and proxies as they were.
pub serve-Atomic :
    (now : ℕ) (w : Writes) (req : Request) (s : Server)
    → is_reload req ≡ false
    → w.rollback ≡ true
    → persisted s ≡ s.cfg
    → IsConsistent s.svc
    → (persisted (serve now w req s).0 ≡ (serve now w req s).0.cfg)
      × (((serve now w req s).1 ≡ 200) ⊎ Untouched s (serve now w req s).0)
unfolding serve add_service remove_service add_bucket_service remove_bucket_service clear_bucket
    remove_proxy_service
serve-Atomic now w (service_add req) s n r p c =
    commit-Atomic w _ 409 _ s r p (Kept-add_static now req.name req.targets req.labels _ s.svc)
serve-Atomic now w (bucket_add req) s n r p c =
    commit-Atomic w _ 409 _ s r p (Kept-add_bucket now req.name req.labels _ s.svc)
serve-Atomic now w (proxy_add req) s n r p c = detect-Atomic now w req s r p
serve-Atomic now w (service_remove name) s n r p c =
    commit-Atomic w _ 404 _ s r p (Kept-remove_static now name s.svc)
serve-Atomic now w (bucket_remove name) s n r p c =
    commit-Atomic w _ 404 _ s r p (Kept-remove_bucket now name s.svc c)
serve-Atomic now w (bucket_clear name) s n r p c = elim (Option-cases (lookup name s.svc.buckets)) [
  | inl e ↦ rw (e, clear_bucket) (p, inr (refl, refl, refl, refl, refl))
  | inr (b, e) ↦ rw (e, clear_bucket) (p, inl refl)
]
serve-Atomic now w (proxy_remove name) s n r p c =
    commit-Atomic w _ 404 _ s r p (Kept-remove_proxy now name s.svc c)
serve-Atomic now w (config_reload binds attrs loaded) s n r p c = cc
