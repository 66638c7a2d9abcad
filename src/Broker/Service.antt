-- ===== src/Broker/Service.antt =====
-- modules/broker/services/broker.service.ts: publishing, requests, registrations and the lock-down.
-- The connection of amqp-lib is the record `Connection`; an operation runs as a whole.
pub mod Silence
use nestjs_amqp.Prelude.{
  ℕ, String, Bool, true, false, ◌&&◌, ◌||◌, not, Option, none, some, List, [], ◌∷◌, ◌++◌, ◌==◌,
  if◌then◌else◌, template, find, nat_eq,
}
use nestjs_amqp.Prelude.Result.{AppError, Result, ok, err, error, ◌>>=◌}
use nestjs_amqp.JsMap.{JsMap, get, set}
use nestjs_amqp.Admin.Manifest.{Json, null}
use nestjs_amqp.Broker.Registry.{
  BrokerEvent, Handler, Kind, fun, rpc, Registry, register, get_handlers, clear,
}
use nestjs_amqp.Broker.Topics.{
  Topic, Keys, QueueConfig, BrokerConfig, Entry, Pools, Route, queue_named, publish_route,
  request_route, or_present,
}

-- MangedFunctionExecutor
pub data Envelope : Type 0 where
  success : Json → Envelope
  failure : AppError → Envelope

-- a call of the connection
pub data Out : Type 0 where
  publishes : Route → (action : String) → (payload : Json) → Out
  requests :
      Route
      → (action : String) → (payload : Json) → (reply_to : Option String) → (timeout : ℕ) → Out
  subscribes :
      (queue : Option String)
      → (exchange : Option String) → (routing_key : Option Keys) → (is_broadcast : Bool) → Out
  responds :
      (queue : Option String) → (exchange : Option String) → (routing_key : Option Keys) → Out
  cancels : Out

pub record Connection : Type 0 where
  pub publish : Out → Result Bool
  pub request : Out → Result Envelope
  pub consume : Out → Result String

pub record Service : Type 0 where
  pub pools : Pools
  pub detached : Bool
  pub registry : Registry

abbrev no_topic : AppError
no_topic = error "TypeError" "Cannot read properties of undefined (reading 'toObservable')"

abbrev detached_error : String → AppError
detached_error topic = error "Error" (template ("Broker is detached: " ∷ topic ∷ []))

abbrev unknown_topic : String → AppError
unknown_topic topic =
    error "Error" (template ("Topic " ∷ topic ∷ " not found in configuration" ∷ []))

abbrev topic_named : List Topic → String → Option Topic
topic_named topics name = find (λ (t : Topic). t.name == name) topics

-- `a || b || 10000`
abbrev number_or : Option ℕ → ℕ → ℕ
number_or none d = d
number_or (some n) d = if nat_eq n 0 then d else n

abbrev timeout_or : Option ℕ → Option ℕ → ℕ
timeout_or timeout default_timeout = number_or timeout (number_or default_timeout 10000)

abbrev reply_queue : JsMap String → Option String → Option String
reply_queue queues none = none
reply_queue queues (some exchange) = get queues exchange

abbrev payload_of : Envelope → Result Json
payload_of (success payload) = ok payload
payload_of (failure e) = err e

pub record AppConfig : Type 0 where
  pub environment : String

-- `this.appConfig.environment` where appConfig is not set
abbrev pub app_config_error : AppError
app_config_error = error "TypeError" "Cannot read properties of undefined (reading 'environment')"

-- what the catch makes of an error; only its name and message are kept here
abbrev failure_of : Option AppConfig → AppError → Result Envelope
failure_of none e = err app_config_error
failure_of (some app_config) e = ok (failure e)

abbrev enveloped : Option AppConfig → Result Json → Result Envelope
enveloped app_config (ok payload) = ok (success payload)
enveloped app_config (err e) = failure_of app_config e

-- executeFunction; without a handler the payload is undefined, for which null stands. The constructor
-- sets no appConfig.
unfoldable pub execute_function : Option AppConfig → Option Handler → BrokerEvent → Result Envelope
execute_function app_config none event = ok (success null)
execute_function app_config (some handler) event = enveloped app_config (handler event)

-- what registerRpc gives to the connection as the consumer of a topic
unfoldable pub rpc_consumer : Option AppConfig → Registry → BrokerEvent → Result Envelope
rpc_consumer app_config registry event =
    execute_function app_config (get_handlers rpc event.topic registry) event

abbrev thrown_failure : Result Envelope → Result (Unit {0})
thrown_failure (ok (success payload)) = ok tt
thrown_failure (ok (failure e)) = err e
thrown_failure (err e) = err e

-- the consumer of registerHandler, for a topic that is not an observable
unfoldable pub event_consumer : Option AppConfig → Registry → BrokerEvent → Result (Unit {0})
event_consumer app_config registry event =
    thrown_failure (execute_function app_config (get_handlers fun event.topic registry) event)

module _ (config : BrokerConfig) (topics : List Topic) (c : Connection) where
  abbrev publish_on : Result Route → String → Json → Result Bool × List Out
  publish_on (err e) action payload = (err e, [])
  publish_on (ok route) action payload =
      (c.publish (publishes route action payload), publishes route action payload ∷ [])

  abbrev publish_to : Option Topic → String → String → Json → Result Bool × List Out
  publish_to none topic action payload = (err (unknown_topic topic), [])
  publish_to (some t) topic action payload = publish_on (publish_route config t) action payload

  unfoldable pub publish_message : String → String → Json → Service → Result Bool × List Out
  publish_message topic action payload st =
      if st.detached
      then (err (detached_error topic), [])
      else publish_to (topic_named topics topic) topic action payload

  abbrev request_on : Result Route → String → Json → Option ℕ → Result Json × List Out
  request_on (err e) action payload timeout = (err e, [])
  request_on (ok route) action payload timeout =
      let out =
        requests route action payload (reply_queue config.reply_queues route.exchange)
          (timeout_or timeout config.default_rpc_timeout) in
      (c.request out >>= payload_of, out ∷ [])

  abbrev request_to : Option Topic → String → String → Json → Option ℕ → Result Json × List Out
  request_to none topic action payload timeout = (err (unknown_topic topic), [])
  request_to (some t) topic action payload timeout =
      request_on (request_route config t) action payload timeout

  unfoldable pub request_data : String → String → Json → Option ℕ → Service → Result Json × List Out
  request_data topic action payload timeout st =
      if st.detached
      then (err (detached_error topic), [])
      else request_to (topic_named topics topic) topic action payload timeout

  abbrev with_registered : Result (Unit {0}) × Registry → Service → Result (Unit {0}) × Service
  with_registered (r, registry) st = (r, record st { registry = registry })

  -- the end of registerHandler: the handler is registered also if the subscription has failed
  abbrev keep_handler : Topic → Option Handler → Service → Result (Unit {0}) × Service
  keep_handler t handler st = if t.to_observable then (ok tt, st) else elim handler [
    | none ↦ (
      err (
          error "Error" (
            template (
              "Topic " ∷ t.name
              ∷ " requires a handler function becouse it has handle property set to true" ∷ []))),
      st,
    )
    | some h ↦ with_registered (register fun t.name h st.registry) st
  ]

  abbrev subscribed_handler : Result String → Entry → String → Service → Service
  subscribed_handler (err e) q name st = st
  subscribed_handler (ok tag) q name st = record st {
    pools = record st.pools {
      handlers =
          set st.pools.handlers name (record q { subscribed = true; consumer_tag = some tag });
    };
  }

  -- the topic of a pool entry is configured: the pools are filled from the topics
  abbrev handle_on :
      Option Entry
      → Option Topic
      → Option Handler
      → Service
      → (Result (Unit {0}) × Service) × List Out
  handle_on none t handler st = ((ok tt, st), [])
  handle_on (some q) none handler st = ((err no_topic, st), [])
  handle_on (some q) (some t) handler st =
      if q.subscribed
      then ((ok tt, st), [])
      else let out = subscribes q.queue q.exchange q.routing_key (t.mode == "broadcast") in
        (keep_handler t handler (subscribed_handler (c.consume out) q t.name st), out ∷ [])

  unfoldable pub register_handler :
      String → Option Handler → Service → (Result (Unit {0}) × Service) × List Out
  register_handler topic handler st =
      handle_on (get st.pools.handlers topic) (topic_named topics topic) handler st

  abbrev subscribed_rpc :
      Result String
      → Out
      → Entry
      → String
      → Handler
      → Service
      → (Result (Unit {0}) × Service) × List Out
  subscribed_rpc (err e) out q topic handler st = ((err e, st), out ∷ [])
  subscribed_rpc (ok tag) out q topic handler st =
      let pools = record st.pools {
        rpcs = set st.pools.rpcs topic (record q { subscribed = true; consumer_tag = some tag });
      } in
      (
        with_registered (register rpc topic handler st.registry) (record st { pools = pools }),
        out ∷ [],
      )

  -- the entry with the path of its queue's configuration
  abbrev resolved : QueueConfig → Entry → Entry
  resolved queue q = record q {
    queue = some queue.name;
    exchange = or_present queue.exchange q.exchange;
    routing_key = or_present queue.routing_key q.routing_key;
  }

  abbrev subscribe_rpc :
      Entry → String → Handler → Service → (Result (Unit {0}) × Service) × List Out
  subscribe_rpc q topic handler st =
      let out = responds q.queue q.exchange q.routing_key in
      subscribed_rpc (c.consume out) out q topic handler st

  abbrev rpc_with_queue :
      Option QueueConfig
      → Entry
      → String
      → Handler
      → Service
      → (Result (Unit {0}) × Service) × List Out
  rpc_with_queue none q topic handler st = ((ok tt, st), [])
  rpc_with_queue (some queue) q topic handler st = subscribe_rpc (resolved queue q) topic handler st

  abbrev rpc_on :
      Option Entry → String → Handler → Service → (Result (Unit {0}) × Service) × List Out
  rpc_on none topic handler st = ((ok tt, st), [])
  rpc_on (some q) topic handler st =
      if q.subscribed
      then (with_registered (register rpc topic handler st.registry) st, [])
      else elim q.queue [
        | none ↦ subscribe_rpc q topic handler st
        | some name ↦ rpc_with_queue (queue_named config (some name)) q topic handler st
      ]

  unfoldable pub register_rpc :
      String → Handler → Service → (Result (Unit {0}) × Service) × List Out
  register_rpc topic handler st = rpc_on (get st.pools.rpcs topic) topic handler st

  abbrev unsubscribed : JsMap Entry → JsMap Entry
  unsubscribed [] = []
  unsubscribed ((name, q) ∷ m) =
      (name, record q { subscribed = false; consumer_tag = none }) ∷ unsubscribed m

  unfoldable pub unregister_all : Service → Service × List Out
  unregister_all st = (
    record {
      pools = record {
        rpcs = unsubscribed st.pools.rpcs;
        handlers = unsubscribed st.pools.handlers;
      };
      detached = true;
      registry = clear st.registry;
    },
    cancels ∷ [],
  )
