-- ===== src/Agent/Error.antt =====
-- The errors that the agent's operations return; `none` of `Option Error` is Go's nil error.
use tailscale_metrics_discov.Common.Text.{Text}

pub data Error : Type 0 where
  service_exists service_not_found : Text → Error
  bucket_exists bucket_not_found : Text → Error
  proxy_exists proxy_not_found : Text → Error
  registering_bucket registering_proxy loading_static : Text → Error → Error
