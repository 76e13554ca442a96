-- ===== src/Agent/Mgmt/Agreement/Removals.antt =====
-- A removal that succeeds, and the configuration without the name.
use tailscale_metrics_discov.Agent.Mgmt.Agreement.Proxies.{
  remove_bucket-proxies, remove_proxy-proxies,
}
use tailscale_metrics_discov.Common.{ap, ℕ, ◌≡◌, ◌∙◌, false, none, arith, if◌then◌else◌}
use tailscale_metrics_discov.Common.Dict.{lookup, has, lookup-delete}
use tailscale_metrics_discov.Common.Text.{Text, ◌==◌, ==_iff}
use tailscale_metrics_discov.Common.Sorting.{find_by}
use tailscale_metrics_discov.Config.{AgentConfig}
use tailscale_metrics_discov.Agent.Registry
use tailscale_metrics_discov.Agent.Services.{
  Services, remove_static, remove_bucket, remove_proxy, bucket_store_remove, proxy_store_remove,
  static_entry, bucket_service_entry, proxy_service_entry,
}
use tailscale_metrics_discov.Agent.Services.Consistent.{
  remove_static-IsConsistent, remove_bucket-IsConsistent, remove_proxy-IsConsistent,
}
use tailscale_metrics_discov.Agent.Services.Closed.{
  remove_static_keeps, remove_bucket_keeps, remove_proxy_keeps,
}
use tailscale_metrics_discov.Agent.Services.Reload.Buckets.{bucket_name}
use tailscale_metrics_discov.Agent.Services.Reload.Listed.{listed}
use tailscale_metrics_discov.Agent.Services.Reload.Loops.{static_name, proxy_name}
use tailscale_metrics_discov.Agent.Mgmt.Agreement.{Agree}
use tailscale_metrics_discov.Agent.Mgmt.Agreement.Lists.{
  without, find_by-without, DistinctBy-without,
}
use tailscale_metrics_discov.Agent.Registry.Order.{IsValid, apply-IsValid}

module _ (now : ℕ) (name : Text) (s : Services) (cfg : AgentConfig) (a : Agree s cfg) where
  remove_static-listed :
      (k : Text) → listed (remove_static now name s).0 k ≡ (if name == k then none else listed s k)
  unfolding remove_static Registry.remove
  remove_static-listed k = ground (arith, lookup-delete name k s.reg.entries, ==_iff name k)

  not_stored :
      find_by bucket_name name cfg.buckets ≡ none
      → find_by proxy_name name cfg.proxies ≡ none
      → (has name s.buckets ≡ false) × (has name s.proxies ≡ false)
  unfolding static_entry
  not_stored b p = ground (arith, b, p, a.agrees name, a.consistent name)

  pub remove_static-Agree :
      find_by bucket_name name cfg.buckets ≡ none
      → find_by proxy_name name cfg.proxies ≡ none
      → Agree
          (remove_static now name s).0
          (record cfg { statics = without static_name name cfg.statics })
  unfolding remove_static
  remove_static-Agree b p = record {
    consistent =
        remove_static-IsConsistent now name s (not_stored b p).0 (not_stored b p).1 a.consistent;
    valid = remove_static_keeps IsValid apply-IsValid now name s a.valid;
    distinct = record {
      statics = DistinctBy-without static_name name cfg.statics a.distinct.statics;
      buckets = a.distinct.buckets;
      proxies = a.distinct.proxies;
      static_bucket = λ k.
          ground
            (arith, find_by-without static_name name k cfg.statics, a.distinct.static_bucket k);
      static_proxy = λ k.
          ground (arith, find_by-without static_name name k cfg.statics, a.distinct.static_proxy k);
      bucket_proxy = a.distinct.bucket_proxy;
    };
    stored = a.stored;
    agrees = λ k.
        remove_static-listed k
        ∙ ground (
          arith,
          a.agrees k,
          find_by-without static_name name k cfg.statics,
          b,
          p,
          ==_iff name k,
        );
  }

  remove_bucket-listed :
      (remove_bucket now name s).1 ≡ none
      → (k : Text)
      → listed (remove_bucket now name s).0 k ≡ (if name == k then none else listed s k)
  unfolding remove_bucket bucket_store_remove Registry.remove
  remove_bucket-listed h k = ground (arith, h, lookup-delete name k s.reg.entries, ==_iff name k)

  bucket_only :
      (remove_bucket now name s).1 ≡ none
      → (find_by static_name name cfg.statics ≡ none) × (find_by proxy_name name cfg.proxies ≡ none)
  unfolding remove_bucket bucket_store_remove static_entry proxy_service_entry bucket_service_entry
  bucket_only h = ground (
    arith,
    h,
    a.agrees name,
    a.consistent name,
    a.distinct.static_bucket name,
    a.distinct.bucket_proxy name,
  )

  pub remove_bucket-Agree :
      (remove_bucket now name s).1 ≡ none
      → Agree
          (remove_bucket now name s).0
          (record cfg { buckets = without bucket_name name cfg.buckets })
  remove_bucket-Agree h = record {
    consistent = remove_bucket-IsConsistent now name s a.consistent;
    valid = remove_bucket_keeps IsValid apply-IsValid now name s a.valid;
    distinct = record {
      statics = a.distinct.statics;
      buckets = DistinctBy-without bucket_name name cfg.buckets a.distinct.buckets;
      proxies = a.distinct.proxies;
      static_bucket = λ k.
          ground
            (arith, find_by-without bucket_name name k cfg.buckets, a.distinct.static_bucket k);
      static_proxy = a.distinct.static_proxy;
      bucket_proxy = λ k.
          ground (arith, find_by-without bucket_name name k cfg.buckets, a.distinct.bucket_proxy k);
    };
    stored = λ k. ap (lookup k) (remove_bucket-proxies now name s) ∙ a.stored k;
    agrees = λ k.
        remove_bucket-listed h k
        ∙ ground (
          arith,
          a.agrees k,
          find_by-without bucket_name name k cfg.buckets,
          bucket_only h,
          ==_iff name k,
        );
  }

  remove_proxy-listed :
      (remove_proxy now name s).1 ≡ none
      → (k : Text) → listed (remove_proxy now name s).0 k ≡ (if name == k then none else listed s k)
  unfolding remove_proxy proxy_store_remove Registry.remove
  remove_proxy-listed h k = ground (arith, h, lookup-delete name k s.reg.entries, ==_iff name k)

  proxy_only :
      (remove_proxy now name s).1 ≡ none
      → (find_by static_name name cfg.statics ≡ none)
        × (find_by bucket_name name cfg.buckets ≡ none)
  unfolding remove_proxy proxy_store_remove static_entry proxy_service_entry bucket_service_entry
  proxy_only h = ground (
    arith,
    h,
    a.agrees name,
    a.consistent name,
    a.distinct.static_proxy name,
    a.distinct.bucket_proxy name,
  )

  pub remove_proxy-Agree :
      (remove_proxy now name s).1 ≡ none
      → Agree
          (remove_proxy now name s).0
          (record cfg { proxies = without proxy_name name cfg.proxies })
  remove_proxy-Agree h = record {
    consistent = remove_proxy-IsConsistent now name s a.consistent;
    valid = remove_proxy_keeps IsValid apply-IsValid now name s a.valid;
    distinct = record {
      statics = a.distinct.statics;
      buckets = a.distinct.buckets;
      proxies = DistinctBy-without proxy_name name cfg.proxies a.distinct.proxies;
      static_bucket = a.distinct.static_bucket;
      static_proxy = λ k.
          ground (arith, find_by-without proxy_name name k cfg.proxies, a.distinct.static_proxy k);
      bucket_proxy = λ k.
          ground (arith, find_by-without proxy_name name k cfg.proxies, a.distinct.bucket_proxy k);
    };
    stored = λ k.
        remove_proxy-proxies now name k s h
        ∙ ground (arith, a.stored k, find_by-without proxy_name name k cfg.proxies, ==_iff name k);
    agrees = λ k.
        remove_proxy-listed h k
        ∙ ground (
          arith,
          a.agrees k,
          find_by-without proxy_name name k cfg.proxies,
          proxy_only h,
          ==_iff name k,
        );
  }
