-- ===== src/Lib.antt =====
-- A verification library for the apicorex gateway, which routes requests to plugins that register
-- with it and protects them.
--
-- A request passes, in this order: the cross-origin headers (internal/middleware/cors.go), the strip
-- of the headers that only the gateway may set (internal/middleware/tenant.go), the two rewrites of
-- the path by the hostname (server/product_host.go, server/domain_resolve.go), the authentication
-- (internal/middleware/auth.go, which asks Identity through the cache of
-- internal/auth/introspect.go), the check of the hostname's tenant, and the dispatcher
-- (internal/dispatcher/dispatcher.go). The dispatcher runs the firewall, the search in the route
-- table, the permission test, the look into the registry, the maintenance check, the two rate
-- limiters, the bulkhead and the circuit breaker, and then sends the request to the plugin with the
-- trusted headers. Plugins come and go through the control plane, with the documents that the
-- injector merges; the health monitor marks the ones that do not answer; and the program
-- (cmd/apicorex/main.go) runs all of this on one shared state.
--
-- Which module models which file:
--   Protection.Firewall         internal/protection/firewall.go, StatusClass of metrics.go beside it
--   Protection.CircuitBreaker   internal/protection/circuit_breaker.go
--   Protection.HealthMonitor    internal/protection/health_monitor.go
--   Protection.Bulkhead         internal/protection/bulkhead.go
--   Protection.RateLimiter      internal/protection/ratelimiter.go
--   Manifest                    internal/manifest/manifest.go, and tenantschema.go in TenantSchema
--   Registry                    internal/registry/registry.go, and maintenance.go in Maintenance
--   Http                        what net/http and gin give the middleware: headers, context, answers
--   Middleware.Tenant           internal/middleware/tenant.go
--   Middleware.Authz            internal/middleware/authz.go
--   Middleware.Auth             internal/middleware/auth.go
--   Auth.Cache                  the cache of internal/auth/introspect.go and domain.go
--   Auth.Introspect             internal/auth/introspect.go
--   Config                      internal/config/config.go, with settings of either sign in Signed
--   Dispatcher.Routes           the route table of internal/dispatcher/dispatcher.go; in InPlace the
--                               array that removeRoutes overwrites
--   Dispatcher.Nav              internal/dispatcher/nav.go
--   Dispatcher.Gateway          the dispatcher's state, and what the control plane changes with it
--   Dispatcher.Dispatch         Dispatch: `admit` up to the forward, `finish` after the answer
--   Dispatcher.Regions          Dispatch again, one turn for each of its lock regions
--   Dispatcher.Proxy            ProxyFor, statusRecorder and the start of proxyWebSocket
--   Auth.Domain                 internal/auth/domain.go
--   Middleware.Cors             internal/middleware/cors.go
--   Openapi                     internal/openapi/injector.go, its JSON values in Document
--   ControlPlane.PluginToken    internal/controlplane/plugintoken.go
--   ControlPlane.Handlers       internal/controlplane/handlers.go: what plugins and operators call
--   ControlPlane.Session        the sessions of the dashboard in handlers.go
--   ControlPlane.Mount          Mount of handlers.go: which calls want a session
--   ControlPlane.Regions        register of handlers.go again, one turn for each of its lock regions
--   Server.HostPort             stripHostPort of server/product_host.go, with net.SplitHostPort
--   Server.ProductHosts         server/product_host.go
--   Server.CustomDomain         server/domain_resolve.go
--   Server.OnDemand             server/ondemand.go
--   Server.Chain                the middleware of server/http.go, composed in its order
--   Server.Own                  the routes of server/http.go that the server answers itself
--   Program                     cmd/apicorex/main.go up to the listeners
--   Program.Lifetime            how the goroutines of main.go come to return
--   Program.Dashboard           cmd/apicorex/dashboard.go, with the package path in Text.Path
--   System                      the running program: its events and the states that it comes to;
--                               in Interleaved with the lock regions of its requests interleaved
-- A function bears the Go function's name in snake case; where a Go function is cut in pieces, the
-- comment at each piece says which. The child modules of a model hold its proofs. Base, Text and
-- Map hold what the models share, and Examples runs the theorems on concrete data.
--
-- Conventions. The clock is an argument, in nanoseconds, and a method that holds a lock is one step
-- on the state. A Go map is an association list that holds a key once; the order in which a range
-- visits it is the order of the list, about which nothing is assumed. Token buckets are whole
-- numbers of 10 ^ -13 tokens, and the rates and bursts of the configuration are whole thousandths, so
-- that the arithmetic which the source does on floats, a tenth of a rate included, is exact here.
-- Finer settings are not modelled. Counters are natural numbers, and their overflow
-- is not modelled. Every loop is a structural recursion, so no function runs on fuel. Strings are
-- lists of bytes, and the folding of letters is that of ASCII.
--
-- Parameters stand for code of other packages: url.Parse, SHA-256, JSON and base64, the cookie
-- reader, the query escape, HMAC and strconv, the HTTP client, uuid, the trace
-- headers, the plugin's own answer, the embedded files of the dashboard, the file system, YAML and the
-- parsers of numbers, and errgroup, of which the laws of its documentation are taken.
--
-- Bounds. In System a request is one event from its arrival to its end. In System.Interleaved it takes
-- a turn for each lock region of Dispatch, and the answer may break off, which ends Dispatch
-- by a panic of the reverse proxy; a limiter that was replaced since it was read may answer anything
-- there. Anything can happen between two turns but a registration or a removal of a plugin while a
-- request reads its route: match gives a pointer into the route table, which removeRoutes overwrites
-- in place, and there the route is kept by value. The source does not wait like that. The middleware
-- before Dispatch is one step in both, and so are a call of the control plane and a round of
-- health checks. ControlPlane.Regions takes a registration apart, on the gateway alone.
-- Outside Interleaved the plugin always answers in full. The request that `forwarded` gives is the one
-- that the reverse proxy gets; it then drops the hop-by-hop headers, also those that the client names
-- in Connection. The routes that gin itself serves, those of Server.Own, of the dashboard and of the
-- control plane, stand in front of the chain and are not matched here. The copy of a path in
-- RequestURI is not kept. Config holds the settings as natural numbers, and that is what the other
-- models use; Config.Signed holds them as the source does.
--
-- Not modelled: tracing, metrics and log lines, and the libraries that collect and print them; the page of the
-- documentation; the copying of bytes by the proxy; listeners beyond how they come to return.
pub mod Auth
pub mod Base
pub mod Config
pub mod ControlPlane
pub mod Dispatcher
pub mod Examples
pub mod Http
pub mod Manifest
pub mod Map
pub mod Middleware
pub mod Openapi
pub mod Program
pub mod Protection
pub mod Registry
pub mod Server
pub mod System
pub mod Text
