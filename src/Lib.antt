-- ===== src/Lib.antt =====
-- tsd finds metric sources on a tailnet. An agent (internal/agent) runs on each monitored node: it keeps
-- a registry of services, which are static targets, push buckets or proxies, checks their health, and
-- serves the list and the health to a central. A central (internal/central) finds the agents by their
-- Tailscale tags, asks each for its services and health by conditional requests, caches what they say,
-- and offers the targets of all healthy agents to Prometheus.
--
-- Correspondence of files and code:
--   Common: numbers, byte texts, maps, sorting, decimal text and results. A Go string is the list of its
--     bytes, a Go map an association list with distinct keys.
--   Protocol: internal/protocol/types.go. Config: internal/config/agent.go, central.go and common.go.
--     Config.Files: atomicWrite and initConfigFile of internal/config/paths.go, and the loads and saves.
--   Agent.Registry: internal/agent/registry.go. `add`, `remove`, `update`, `touch_services`,
--     `update_health` are the methods of those names on the table `Registry`; `run` is a sequence of
--     calls, each with its time. Modified has `not_modified_since`, the comparison of checkNotModified in
--     internal/agent/server.go.
--   Agent.Bucket: internal/agent/bucket.go. GroupKey has parseGroupKey and canonicalGroupKey, Base64
--     decodeBase64URL; `push` and `delete_group` are push and delete, `served_families`
--     is serveMetrics up to the loop that encodes the merged families.
--   Agent.HealthChecker: internal/agent/health.go. A goroutine is a `Check` in the list of the running
--     ones, and its cancel function its number.
--   Agent.Proxy: internal/agent/proxy.go.
--   Agent.Services: addStatic, addBucket, addProxy, updateBucket and the removals of
--     internal/agent/server.go, over the registry, the checker and the two stores. Reach has the calls as
--     a step relation, in any order.
--     Reload has reloadConfigServices and the loads of Start, Closed what every call of the registry keeps.
--   Agent.Server: the configuration, its file, the listener and the node attributes of
--     internal/agent/server.go, with Reload, rebindHTTPServer, LoadNodeAttrs and the start of the services.
--   Agent.Mgmt: the handlers of internal/agent/mgmt.go. `commit` and `settle` are the text that the
--     handlers share: save the next configuration, apply the change, save the old one if it is refused.
--   Agent.Api: handleServices and handleServicesHealth of internal/agent/server.go and the addresses of
--     internal/agent/daemon.go. Conditional has what a running agent does as a step relation.
--   Agent.Routes: handlePush, handleBucketMetrics and handleProxyMetrics. Agent.Access: recordClientAccess.
--   Status: internal/tsutil/status.go and handleHealthz of both daemons.
--   Agent.Auth: authMiddleware of internal/agent/server.go. Agent.Resolve: internal/agent/resolve.go and
--     resolveEntry.
--   Central.Discovery: internal/central/discovery.go and internal/tsutil/attrs.go.
--   Central.Collector: the state and the two queries of internal/central/collector.go. Central.Merge:
--     mergePeers. Central.Refresh: refresh, where the order in which results arrive is an argument;
--     `finish` is its end, with evictExpiredServiceCache.
--   Central.PeerCache: savePeerCache and loadPeerCache. Central.Server: internal/central/server.go.
--   Central.Loop: Run of internal/central/collector.go, as a sequence of events.
--   Central.Mgmt: the handlers of internal/central/mgmt.go. Central.Current: an agent and a central that
--     asks it, composed: the answer of the one is what the other receives.
--   Modules named Tests hold concrete runs.
--
-- Bounds and fuel: times are nanoseconds on unbounded naturals; decimal text is written on fuel one
-- above the number; `resolve_target` runs on the length of its target, and each round consumes a pair
-- of braces (Agent.Resolve.Fuel has the finished runs without fuel). Ports are as in the source; no other width matters to the code that is modelled.
--
-- Parameters: the gzip, media type and exposition decoders of a push, the daemon's status and WhoIs, the
-- addresses of interfaces, net.ParseIP, net.SplitHostPort, the time format of HTTP, the JSON document of
-- the cached peers, and the agents that a central asks, each a function from the request to the outcome.
-- Whether a write to the configuration file or a bind succeeds is an argument. Of two peers with one
-- Tailscale address, the queries are taken in list order. Requests that hold one lock run one after
-- another.
--
-- Not modelled: command lines, installation, sockets and signals, listeners, the encodings JSON and TOML,
-- Prometheus metrics of tsd itself, the timers of health checks and of the background loop: their code is
-- calls of other packages, or has no state that the modelled code reads.
pub mod Common
pub mod Protocol
pub mod Config
pub mod Status
pub mod Agent
pub mod Central
