-- ===== src/Broker/Topics.antt =====
-- modules/broker/services/broker.service.ts: the configuration of topics, queues and exchanges
-- (modules/broker/config/topics.config.ts), the pools that onModuleInit fills from it, and the
-- exchange and routing key of an outgoing message.
use nestjs_amqp.Prelude.{
  ℕ, String, Bool, true, false, ◌&&◌, ◌||◌, not, Option, none, some, List, [], ◌∷◌, ◌==◌,
  if◌then◌else◌, template, find, includes,
}
use nestjs_amqp.Prelude.Result.{AppError, Result, ok, err, error, ◌>>=◌}
use nestjs_amqp.JsMap.{JsMap, has, set}
use nestjs_amqp.Proxy.Provider.{given}

pub record Topic : Type 0 where
  pub name : String
  pub mode : String
  pub queue : Option String
  pub exchange : Option String
  pub routing_key : Option String
  pub to_observable : Bool

-- `string | string[]`
pub data Keys : Type 0 where
  one_key : String → Keys
  many_keys : List String → Keys

pub record QueueConfig : Type 0 where
  pub name : String
  pub exchange : Option String
  pub routing_key : Option Keys

pub record ExchangeConfig : Type 0 where
  pub name : String
  pub kind : String

pub record BrokerConfig : Type 0 where
  pub queues : List QueueConfig
  pub exchanges : List ExchangeConfig
  pub reply_queues : JsMap String
  pub default_rpc_timeout : Option ℕ
  pub connection_name : Option String

-- an entry of rpcsPool or handlersPool
pub record Entry : Type 0 where
  pub exchange : Option String
  pub queue : Option String
  pub routing_key : Option Keys
  pub subscribed : Bool
  pub consumer_tag : Option String

pub record Pools : Type 0 where
  pub rpcs : JsMap Entry
  pub handlers : JsMap Entry

-- `a || b` and `a ?? b` for texts
abbrev pub or_given : Option String → Option String → Option String
or_given a b = if given a then a else b

abbrev pub or_present {ℓ} : {A : Type ℓ} → Option A → Option A → Option A
or_present none b = b
or_present (some a) b = some a

abbrev pub queue_named : BrokerConfig → Option String → Option QueueConfig
queue_named config none = none
queue_named config (some name) = find (λ (q : QueueConfig). q.name == name) config.queues

abbrev exchange_named : BrokerConfig → Option String → Option ExchangeConfig
exchange_named config none = none
exchange_named config (some name) = find (λ (e : ExchangeConfig). e.name == name) config.exchanges

-- `Array.isArray(k) ? k[0] : k`
abbrev first_key : Keys → Option String
first_key (one_key k) = some k
first_key (many_keys []) = none
first_key (many_keys (k ∷ ks)) = some k

abbrev pub key_of : Option QueueConfig → Option String
key_of none = none
key_of (some q) = elim q.routing_key [ none ↦ none | some k ↦ first_key k ]

abbrev pub exchange_of : Option QueueConfig → Option String
exchange_of none = none
exchange_of (some q) = q.exchange

abbrev name_of : Option QueueConfig → Option String
name_of none = none
name_of (some q) = some q.name

abbrev as_keys : Option String → Option Keys
as_keys none = none
as_keys (some k) = some (one_key k)

-- `!queue?.routingKey`: a list is never missing
abbrev has_keys : Option QueueConfig → Bool
has_keys none = false
has_keys (some q) = elim q.routing_key [
  | none ↦ false
  | some (one_key k) ↦ not (k == "")
  | some (many_keys ks) ↦ true
]

abbrev is_topic_exchange : Option ExchangeConfig → Bool
is_topic_exchange none = false
is_topic_exchange (some e) = e.kind == "topic"

abbrev exchange_name : Option ExchangeConfig → Option String
exchange_name none = none
exchange_name (some e) = some e.name

abbrev fresh : Option String → Option String → Option String → Entry
fresh exchange queue key = record {
  exchange = exchange;
  queue = queue;
  routing_key = as_keys key;
  subscribed = false;
  consumer_tag = none;
}

abbrev blank_to_none : Option String → Option String
blank_to_none s = if given s then s else none

unfoldable pub init_rpc : Topic → Pools → Result Pools
init_rpc t p =
    if not (given t.queue) && not (given t.exchange)
    then ok p
    else if has p.rpcs t.name
    then ok p
    else ok (record p {
      rpcs =
          set p.rpcs t.name (
            fresh (blank_to_none t.exchange) (blank_to_none t.queue) (blank_to_none t.routing_key));
    })

abbrev shown_name : Option String → String
shown_name none = ""
shown_name (some s) = s

unfoldable pub init_broadcast : BrokerConfig → Topic → Pools → Result Pools
init_broadcast config t p =
    if not (given t.exchange) || not (given t.routing_key)
    then ok p
    else if not (given config.connection_name)
    then err (error "Error" "Client name is required for topic exchange")
    else ok (record p {
      handlers = set p.handlers t.name (
          fresh t.exchange (some (template (t.name ∷ "-" ∷ shown_name config.connection_name ∷ [])))
            t.routing_key);
    })

-- Both throws read `queue.name`: without a queue they throw a TypeError in place of their own error
abbrev handle_error : Option QueueConfig → AppError
handle_error none = error "TypeError" "Cannot read properties of undefined (reading 'name')"
handle_error (some q) = error "Error" (template ("Queue " ∷ q.name ∷ " has no routing key" ∷ []))

abbrev on_known : Option QueueConfig → Pools → Result Pools
on_known none p = err (handle_error none)
on_known (some q) p = ok p

abbrev init_handle_with : Option QueueConfig → Option ExchangeConfig → Topic → Pools → Result Pools
init_handle_with queue exchange t p =
    if is_topic_exchange exchange && not (has_keys queue)
    then err (handle_error queue)
    else if has p.handlers t.name
    then on_known queue p
    else ok (record p {
      handlers = set p.handlers t.name (
          fresh (or_given (exchange_name exchange) t.exchange) (or_given (name_of queue) t.queue)
            (or_given (key_of queue) t.routing_key));
    })

unfoldable pub init_handle : BrokerConfig → Topic → Pools → Result Pools
init_handle config t p =
    let queue = queue_named config t.queue in
    init_handle_with queue (exchange_named config (or_present (exchange_of queue) t.exchange)) t p

unfoldable pub init_topic : BrokerConfig → Topic → Pools → Result Pools
init_topic config t p =
    if t.mode == "rpc"
    then init_rpc t p
    else if t.mode == "broadcast"
    then init_broadcast config t p
    else if t.mode == "handle"
    then init_handle config t p
    else ok p

unfoldable pub init_pools : BrokerConfig → List Topic → Pools → Result Pools
init_pools config [] p = ok p
init_pools config (t ∷ ts) p = init_topic config t p >>= λ p'. init_pools config ts p'

-- where a message goes; a part that is undefined is none
pub record Route : Type 0 where
  pub exchange : Option String
  pub routing_key : Option String

abbrev by_queue : Option QueueConfig → String → Result Route
by_queue none topic =
    err (error "Error" (template ("No routing key found for topic " ∷ topic ∷ [])))
by_queue (some q) topic = ok (record { exchange = q.exchange; routing_key = key_of (some q) })

-- the route of publishMessage for a topic that is configured
unfoldable pub publish_route : BrokerConfig → Topic → Result Route
publish_route config t =
    if not (includes ("event" ∷ "broadcast" ∷ "rpc" ∷ "handle" ∷ []) t.mode)
    then err
        (error "Error" (template ("Topic " ∷ t.name ∷ " is not configured for publishing" ∷ [])))
    else if not (given t.routing_key)
    then by_queue (queue_named config t.queue) t.name
    else if not (given t.exchange)
    then err (error "Error" (template ("Exchange not found for topic " ∷ t.name ∷ [])))
    else ok (record { exchange = t.exchange; routing_key = t.routing_key })

abbrev with_queue : BrokerConfig → Topic → Route
with_queue config t =
    if given t.queue
    then record {
      exchange = or_given (exchange_of (queue_named config t.queue)) t.exchange;
      routing_key = or_given t.routing_key (key_of (queue_named config t.queue));
    }
    else record { exchange = t.exchange; routing_key = t.routing_key }

-- the route of requestData
unfoldable pub request_route : BrokerConfig → Topic → Result Route
request_route config t =
    let r = with_queue config t in
    if not (given r.exchange) || not (given r.routing_key)
    then err (error "Error" (template ("Invalid topic configuration for topic " ∷ t.name ∷ [])))
    else ok r
