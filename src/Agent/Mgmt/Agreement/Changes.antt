-- ===== src/Agent/Mgmt/Agreement/Changes.antt =====
-- A change of the services that succeeds, and the next configuration.
use tailscale_metrics_discov.Agent.Mgmt.Agreement.Proxies.{add_static-proxies, add_bucket-proxies}
use tailscale_metrics_discov.Agent.Services.Reload.Proxies.{add_proxy-stored}
use tailscale_metrics_discov.Common.Dict.{lookup}
use tailscale_metrics_discov.Common.{ap, ℕ, ◌≡◌, sym, ◌∙◌, [], ◌∷◌, ◌++◌, none, arith}
use tailscale_metrics_discov.Common.Text.{Text, ==_iff}
use tailscale_metrics_discov.Common.Sorting.{find_by}
use tailscale_metrics_discov.Config.{StaticService, BucketService, ProxyService, AgentConfig}
use tailscale_metrics_discov.Agent.Registry
use tailscale_metrics_discov.Agent.Services.{
  Services, add_static, add_bucket, add_proxy, static_entry, bucket_service_entry,
  proxy_service_entry, bucket_store_add, proxy_store_add,
}
use tailscale_metrics_discov.Agent.Services.Consistent.{
  add_static-IsConsistent, add_bucket-IsConsistent, add_proxy-IsConsistent,
}
use tailscale_metrics_discov.Agent.Services.Closed.{
  add_static_keeps, add_bucket_keeps, add_proxy_keeps,
}
use tailscale_metrics_discov.Agent.Services.Reload.{proxy_auth}
use tailscale_metrics_discov.Agent.Services.Reload.Buckets.{bucket_name}
use tailscale_metrics_discov.Agent.Services.Reload.Listed.{
  listed, add_static-listed, add_proxy-listed, add_bucket-listed,
}
use tailscale_metrics_discov.Agent.Services.Reload.Loops.{static_name, proxy_name}
use tailscale_metrics_discov.Agent.Services.Reload.Configured.{configured}
use tailscale_metrics_discov.Agent.Mgmt.Agreement.{Agree}
use tailscale_metrics_discov.Agent.Mgmt.Agreement.Lists.{find_by-snoc, DistinctBy-snoc}
use tailscale_metrics_discov.Agent.Registry.Order.{IsValid, apply-IsValid}

-- A name that nothing is configured for.
abbrev Unused : AgentConfig → Text → Type 0
Unused cfg name =
    (find_by static_name name cfg.statics ≡ none)
    × (find_by bucket_name name cfg.buckets ≡ none)
    × (find_by proxy_name name cfg.proxies ≡ none)

configured-Unused : (cfg : AgentConfig) (name : Text) → configured cfg name ≡ none → Unused cfg name
configured-Unused cfg name h = ground arith

module _ (now : ℕ) (s : Services) (cfg : AgentConfig) (a : Agree s cfg) where
  unused : (name : Text) → listed s name ≡ none → Unused cfg name
  unused name h = configured-Unused cfg name (sym (a.agrees name) ∙ h)

  add_static-free :
      (st : StaticService)
      → (add_static now st.name st.targets st.labels st.healthcheck s).1 ≡ none
      → listed s st.name ≡ none
  unfolding add_static Registry.add static_entry
  add_static-free st h = ground (arith, h)

  pub add_static-Agree :
      (st : StaticService)
      → (add_static now st.name st.targets st.labels st.healthcheck s).1 ≡ none
      → Agree
          (add_static now st.name st.targets st.labels st.healthcheck s).0
          (record cfg { statics = cfg.statics ++ st ∷ [] })
  add_static-Agree st h =
      let free = add_static-free st h in
      let none_named = unused st.name free in
      record {
        consistent =
            add_static-IsConsistent now st.name st.targets st.labels st.healthcheck s a.consistent;
        valid =
            add_static_keeps IsValid apply-IsValid now st.name st.targets st.labels st.healthcheck s
              a.valid;
        distinct = record {
          statics = DistinctBy-snoc static_name st cfg.statics a.distinct.statics none_named.0;
          buckets = a.distinct.buckets;
          proxies = a.distinct.proxies;
          static_bucket = λ k. ground (
            arith,
            find_by-snoc static_name k st cfg.statics,
            a.distinct.static_bucket k,
            none_named,
            ==_iff st.name k,
          );
          static_proxy = λ k. ground (
            arith,
            find_by-snoc static_name k st cfg.statics,
            a.distinct.static_proxy k,
            none_named,
            ==_iff st.name k,
          );
          bucket_proxy = a.distinct.bucket_proxy;
        };
        stored = λ k.
            ap (lookup k) (add_static-proxies now st.name st.targets st.labels st.healthcheck s)
            ∙ a.stored k;
        agrees = λ k.
            add_static-listed now st.name k st.targets st.labels st.healthcheck s free
            ∙ ground (
              arith,
              a.agrees k,
              find_by-snoc static_name k st cfg.statics,
              a.distinct.static_bucket k,
              a.distinct.static_proxy k,
              none_named,
              ==_iff st.name k,
            );
      }

  add_bucket-free :
      (bc : BucketService)
      → (add_bucket now bc.name bc.labels bc.healthcheck s).1 ≡ none
      → listed s bc.name ≡ none
  unfolding add_bucket bucket_store_add Registry.add bucket_service_entry
  add_bucket-free bc h = ground (arith, h)

  pub add_bucket-Agree :
      (bc : BucketService)
      → (add_bucket now bc.name bc.labels bc.healthcheck s).1 ≡ none
      → Agree
          (add_bucket now bc.name bc.labels bc.healthcheck s).0
          (record cfg { buckets = cfg.buckets ++ bc ∷ [] })
  add_bucket-Agree bc h =
      let free = add_bucket-free bc h in
      let none_named = unused bc.name free in
      record {
        consistent = add_bucket-IsConsistent now bc.name bc.labels bc.healthcheck s a.consistent;
        valid =
            add_bucket_keeps IsValid apply-IsValid now bc.name bc.labels bc.healthcheck s a.valid;
        distinct = record {
          statics = a.distinct.statics;
          buckets = DistinctBy-snoc bucket_name bc cfg.buckets a.distinct.buckets none_named.1;
          proxies = a.distinct.proxies;
          static_bucket = λ k. ground (
            arith,
            find_by-snoc bucket_name k bc cfg.buckets,
            a.distinct.static_bucket k,
            none_named,
            ==_iff bc.name k,
          );
          static_proxy = a.distinct.static_proxy;
          bucket_proxy = λ k. ground (
            arith,
            find_by-snoc bucket_name k bc cfg.buckets,
            a.distinct.bucket_proxy k,
            none_named,
            ==_iff bc.name k,
          );
        };
        stored = λ k.
            ap (lookup k) (add_bucket-proxies now bc.name bc.labels bc.healthcheck s) ∙ a.stored k;
        agrees = λ k.
            add_bucket-listed now bc.name k bc.labels bc.healthcheck s a.consistent free
            ∙ ground (
              arith,
              a.agrees k,
              find_by-snoc bucket_name k bc cfg.buckets,
              a.distinct.static_bucket k,
              a.distinct.bucket_proxy k,
              none_named,
              ==_iff bc.name k,
            );
      }

  add_proxy-free :
      (pc : ProxyService)
      → (add_proxy now pc.name pc.target (proxy_auth pc.auth) pc.labels pc.healthcheck s).1 ≡ none
      → listed s pc.name ≡ none
  unfolding add_proxy proxy_store_add Registry.add proxy_service_entry
  add_proxy-free pc h = ground (arith, h)

  pub add_proxy-Agree :
      (pc : ProxyService)
      → (add_proxy now pc.name pc.target (proxy_auth pc.auth) pc.labels pc.healthcheck s).1 ≡ none
      → Agree
          (add_proxy now pc.name pc.target (proxy_auth pc.auth) pc.labels pc.healthcheck s).0
          (record cfg { proxies = cfg.proxies ++ pc ∷ [] })
  add_proxy-Agree pc h =
      let auth = proxy_auth pc.auth in
      let free = add_proxy-free pc h in
      let none_named = unused pc.name free in
      record {
        consistent =
            add_proxy-IsConsistent now pc.name pc.target auth pc.labels pc.healthcheck s
              a.consistent;
        valid =
            add_proxy_keeps IsValid apply-IsValid now pc.name pc.target auth pc.labels
              pc.healthcheck s a.valid;
        distinct = record {
          statics = a.distinct.statics;
          buckets = a.distinct.buckets;
          proxies = DistinctBy-snoc proxy_name pc cfg.proxies a.distinct.proxies none_named.2;
          static_bucket = a.distinct.static_bucket;
          static_proxy = λ k. ground (
            arith,
            find_by-snoc proxy_name k pc cfg.proxies,
            a.distinct.static_proxy k,
            none_named,
            ==_iff pc.name k,
          );
          bucket_proxy = λ k. ground (
            arith,
            find_by-snoc proxy_name k pc cfg.proxies,
            a.distinct.bucket_proxy k,
            none_named,
            ==_iff pc.name k,
          );
        };
        stored = λ k.
            add_proxy-stored now pc k s a.consistent free
            ∙ ground (
              arith,
              a.stored k,
              find_by-snoc proxy_name k pc cfg.proxies,
              none_named,
              ==_iff pc.name k,
            );
        agrees = λ k.
            add_proxy-listed now pc.name k pc.target auth pc.labels pc.healthcheck s a.consistent
              free
            ∙ ground (
              arith,
              a.agrees k,
              find_by-snoc proxy_name k pc cfg.proxies,
              a.distinct.static_proxy k,
              a.distinct.bucket_proxy k,
              none_named,
              ==_iff pc.name k,
            );
      }
