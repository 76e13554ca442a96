-- ===== src/Agent/Mgmt/Agreement/Serve.antt =====
-- Every request keeps the services and the configuration in agreement.
use tailscale_metrics_discov.Common.{ℕ, ◌≡◌, none, some, arith, Option-cases, inl, inr}
use tailscale_metrics_discov.Common.Text.{Text, ==_iff}
use tailscale_metrics_discov.Common.Dict.{lookup, insert, lookup-insert}
use tailscale_metrics_discov.Common.Sorting.{find_by}
use tailscale_metrics_discov.Config.{AgentConfig}
use tailscale_metrics_discov.Agent.Bucket.{Bucket, clear}
use tailscale_metrics_discov.Agent.Services.{Services}
use tailscale_metrics_discov.Agent.Services.Reload.Buckets.{bucket_name}
use tailscale_metrics_discov.Agent.Services.Reload.Loops.{proxy_name}
use tailscale_metrics_discov.Agent.Services.Reload.Configured.{HasDistinctNames}
use tailscale_metrics_discov.Agent.Server.{Server, reload}
use tailscale_metrics_discov.Agent.Mgmt.{
  Writes, Request, ProxyRequest, service_add, bucket_add, proxy_add, service_remove, bucket_remove,
  bucket_clear, proxy_remove, config_reload, serve, add_service, remove_service, add_bucket_service,
  remove_bucket_service, clear_bucket, add_proxy_service, add_typed_proxy, remove_proxy_service,
  detect_auth_type,
}
use tailscale_metrics_discov.Agent.Mgmt.Kept.{
  Kept-add_static, Kept-remove_static, Kept-add_bucket, Kept-remove_bucket, Kept-add_proxy,
  Kept-remove_proxy,
}
use tailscale_metrics_discov.Agent.Mgmt.Agreement.{Agree, Agreeing, lands, commit-Agreeing}
use tailscale_metrics_discov.Agent.Mgmt.Agreement.Changes.{
  add_static-Agree, add_bucket-Agree, add_proxy-Agree,
}
use tailscale_metrics_discov.Agent.Mgmt.Agreement.Removals.{
  remove_static-Agree, remove_bucket-Agree, remove_proxy-Agree,
}
use tailscale_metrics_discov.Agent.Mgmt.Agreement.Reload.{reload-Agreeing}

-- A static service is removed by its own name, and a file that is read has distinct names.
abbrev pub Proper : Server → Request → Type 0
Proper s (service_remove name) =
    (find_by bucket_name name s.cfg.buckets ≡ none) × (find_by proxy_name name s.cfg.proxies ≡ none)
Proper s (config_reload binds attrs (some cfg)) = HasDistinctNames cfg
Proper s _ = Unit

clear-Agree :
    (name : Text) (b : Bucket) (s : Services) (cfg : AgentConfig)
    → lookup name s.buckets ≡ some b
    → Agree s cfg
    → Agree (record s { buckets = insert name (clear b) s.buckets }) cfg
clear-Agree name b s cfg h a = record {
  consistent = λ k. (
    ground (arith, h, a.consistent k, lookup-insert name k (clear b) s.buckets, ==_iff name k),
    (a.consistent k).1,
  );
  valid = a.valid;
  distinct = a.distinct;
  stored = a.stored;
  agrees = a.agrees;
}

module _ (now : ℕ) (w : Writes) (s : Server) (a : Agreeing s) where
  add_proxy_service-Agreeing : (req : ProxyRequest) → Agreeing (add_proxy_service now w req s).0
  unfolding add_proxy_service add_typed_proxy
  add_proxy_service-Agreeing req = elim (Option-cases (detect_auth_type req.auth)) [
    | inl e ↦ rw (e, add_proxy_service) a
    | inr (t, e) ↦
        rw (e, add_proxy_service)
          (commit-Agreeing w _ 409 _ s a (
            lands s.cfg _ s.svc _ a (Kept-add_proxy now req.name req.target _ req.labels _ s.svc)
              (add_proxy-Agree now s.svc s.cfg a _)))
  ]

  clear_bucket-Agreeing : (name : Text) → Agreeing (clear_bucket name s).0
  unfolding clear_bucket
  clear_bucket-Agreeing name = elim (Option-cases (lookup name s.svc.buckets)) [
    | inl e ↦ rw (e, clear_bucket) a
    | inr (b, e) ↦ rw (e, clear_bucket) (clear-Agree name b s.svc s.cfg e a)
  ]

-- Whatever a management request asks for, and however its writes to the file end: if the service list
-- showed under every name what the configuration asks for, with each proxy as it is configured, the
-- stores in step and no name twice, then it does so after the request, of the configuration after it.
-- Asked of the request: the name of a static service to be removed is no bucket's or proxy's, and a
-- configuration that is read from the file has no name twice.
pub serve-Agreeing :
    (now : ℕ) (w : Writes) (req : Request) (s : Server)
    → Agreeing s
    → Proper s req
    → Agreeing (serve now w req s).0
unfolding serve add_service remove_service add_bucket_service remove_bucket_service
    remove_proxy_service reload
serve-Agreeing now w (service_add req) s a p = commit-Agreeing w _ 409 _ s a (
    lands s.cfg _ s.svc _ a (Kept-add_static now req.name req.targets req.labels _ s.svc)
      (add_static-Agree now s.svc s.cfg a _))
serve-Agreeing now w (bucket_add req) s a p = commit-Agreeing w _ 409 _ s a (
    lands s.cfg _ s.svc _ a (Kept-add_bucket now req.name req.labels _ s.svc)
      (add_bucket-Agree now s.svc s.cfg a _))
serve-Agreeing now w (proxy_add req) s a p = add_proxy_service-Agreeing now w s a req
serve-Agreeing now w (service_remove name) s a p = commit-Agreeing w _ 404 _ s a (
    lands s.cfg _ s.svc _ a (Kept-remove_static now name s.svc)
      λ _. remove_static-Agree now name s.svc s.cfg a p.0 p.1)
serve-Agreeing now w (bucket_remove name) s a p = commit-Agreeing w _ 404 _ s a (
    lands s.cfg _ s.svc _ a (Kept-remove_bucket now name s.svc a.consistent)
      (remove_bucket-Agree now name s.svc s.cfg a))
serve-Agreeing now w (bucket_clear name) s a p = clear_bucket-Agreeing now w s a name
serve-Agreeing now w (proxy_remove name) s a p = commit-Agreeing w _ 404 _ s a (
    lands s.cfg _ s.svc _ a (Kept-remove_proxy now name s.svc a.consistent)
      (remove_proxy-Agree now name s.svc s.cfg a))
serve-Agreeing now w (config_reload binds attrs none) s a p = a
serve-Agreeing now w (config_reload binds attrs (some cfg)) s a p =
    reload-Agreeing now binds attrs cfg s a p
