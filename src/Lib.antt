-- ===== src/Lib.antt =====
-- A model of the nestjs-amqp library (libs/rlb-nestjs-amqp/src), with the theorems that hold of it.
--
-- Acl models modules/acl: the authorization check with its two-tier decision cache, at Acl/Cache
-- (acl-cache.service.ts), Acl/Match (auth-match.ts) and Acl/Service (acl.service.ts). Acl/Race has
-- the interleavings of checks and mutations as a step relation. Acl/Management has the mutations
-- themselves (acl-management.service.ts, acl-invalidation.service.ts): it asks Acl/Service for the
-- gate and drops decisions from Acl/Cache.
-- Amqp models amqp-lib/amqp: Amqp/Routing (matchesRoutingKey of utils.ts), Amqp/Retry
-- (retry-policy.ts: what happens to a message whose handler failed), Amqp/Consumer (the RPC and
-- subscriber consumers of connection.ts, the choice of their error handler, errorBehaviors.ts),
-- Amqp/Drain (the set-up and the cancellation of consumers in connection.ts, as a step relation) and
-- Amqp/Request (request and processDirectReplyToMessage there: the race of replies and timeouts).
-- Broker models modules/broker on top of it: Broker/Registry (handler-registry.service.ts),
-- Broker/Topics and Broker/Service (broker.service.ts: the pools of topics, publishing, requests,
-- registrations, the lock-down, the consumers that run handlers; the connection is a parameter) and
-- Broker/Decorators (decorator-paths.ts and parts of metadata-scanner.service.ts: the routes that
-- decorated methods declare, and who protects them).
-- Proxy models modules/proxy, the HTTP and WebSocket gateway: Proxy/Provider
-- (auth-provider-registry.service.ts), Proxy/Jwt (jwt.service.ts), Proxy/Auth
-- (http-auth-handler.service.ts), Proxy/Gateway (the handler of a route in http-handler.service.ts;
-- Gateway/Body is the data it sends on), Proxy/Capacity (the concurrency cap and the reloads there)
-- and Proxy/Socket (the session of a client in websocket.service.ts). Proxy/Gateway and Proxy/Socket
-- ask Proxy/Auth who the sender is and what it may do; the ACL service and the broker are parameters
-- there.
-- Admin models modules/gateway-admin: Admin/Manifest (util/route-manifest.ts: identity, content and
-- overrides of a route), Admin/Diff (util/route-diff.ts), Admin/Sync (services/route-sync.service.ts,
-- which applies a diff to the stored routes), Admin/Paths (services/gateway-path.service.ts, where
-- users create, edit and delete routes), Admin/Order (util/path-order.ts: the order in which the
-- gateway loads the routes), Admin/Metrics (the aggregations of util/metrics.ts) and Admin/Rollup
-- (services/gateway-metrics-rollup.service.ts, which stores the aggregations of each hour).
-- JsMap is JavaScript's Map; Prelude has lists, tests, results, template literals, sorting
-- and the order of strings.
--
-- A promise that may reject is a `Result`, or an `Option` where the error is only logged. The clock
-- and what a database or an L2 store replies are arguments. A number is a natural number; a cap or
-- a time-to-live of 0 stands for every value that is not positive. Logging is left out, except
-- where a log line can throw in the handler of a route and in a subscriber, and so are the numbers
-- and ids in error messages. A call of the message broker is an event with whether it
-- succeeded, and which calls succeed is a parameter. Where the platform turns a text into a number,
-- a JSON text or upper case, decodes base64 or divides with rounding, the function is a parameter,
-- and so is `verify` of jsonwebtoken, of which Proxy/Socket supposes that it gives the payload of a
-- token whatever key and options accept it. The decoded payload of a token is a JSON object. The rounds of
-- redelivery in Amqp/Retry/Attempts are on fuel; the theorem there says how much is enough. What a
-- session, the cap and the reloads go through is a list of steps in any order.
--
-- Not modelled: the metrics hook of the HTTP gateway and its subscription to the control topic; the
-- queues and webhooks of the WebSocket gateway; the reflection over decorated classes and the consumer
-- that the metadata scanner registers; the summary of the metrics and the
-- services that answer queries on them or delete old points; the administration of auth providers;
-- the connection set-up of amqp-lib; and the schematics.
pub mod Prelude
pub mod JsMap
pub mod Acl
pub mod Amqp
pub mod Admin
pub mod Broker
pub mod Proxy
