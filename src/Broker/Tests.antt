-- ===== src/Broker/Tests.antt =====
-- The theorems on the broker service at concrete inputs.
use nestjs_amqp.Prelude.{String, true, false, none, some, List, [], ◌∷◌, ◌≡◌, refl, All}
use nestjs_amqp.Prelude.Result.{ok, err, error}
use nestjs_amqp.Admin.Manifest.{null}
use nestjs_amqp.Broker.Registry.{
  BrokerEvent, Handler, fun, rpc, Registry, get_handlers, no_handlers,
}
use nestjs_amqp.Broker.Registry.Contract.{
  Command, registers, looks_up, unregisters, registry_run, contract_run, nothing_yet,
  registry_run-contract,
}
use nestjs_amqp.Broker.Topics.{Topic, BrokerConfig, Entry, publish_route}
use nestjs_amqp.Broker.Service.{
  Connection, Service, success, unregister_all, rpc_consumer, event_consumer, app_config_error,
  execute_function, failure, publish_message,
}
use nestjs_amqp.Broker.Service.Silence.{
  Op, publish, serves, request, IsInward, run, unregister_all-IsSilent,
}
use nestjs_amqp.Broker.Decorators.{HttpEntry, AuthEntry}

abbrev echo : Handler
echo event = ok event.payload

abbrev broken : Handler
broken event = err (error "NotFoundError" "no such order")

abbrev commands : List Command
commands =
    registers rpc "orders" echo
    ∷ registers rpc "orders" broken
    ∷ registers fun "orders" broken
    ∷ looks_up rpc "orders"
    ∷ unregisters rpc "orders"
    ∷ looks_up rpc "orders"
    ∷ []

registry_run-contract_example :
    registry_run commands no_handlers ≡ contract_run commands nothing_yet
registry_run-contract_example = registry_run-contract commands

abbrev orders : Topic
orders = record {
  name = "orders";
  mode = "rpc";
  queue = none;
  exchange = some "shop";
  routing_key = some "orders";
  to_observable = false;
}

abbrev config : BrokerConfig
config = record {
  queues = [];
  exchanges = [];
  reply_queues = [];
  default_rpc_timeout = none;
  connection_name = none;
}

abbrev connection : Connection
connection = record {
  publish = λ out. ok true;
  request = λ out. ok (success null);
  consume = λ out. ok "tag";
}

abbrev entry : Entry
entry = record {
  exchange = some "shop";
  queue = none;
  routing_key = none;
  subscribed = false;
  consumer_tag = none;
}

abbrev service : Service
service = record {
  pools = record { rpcs = ("orders", entry) ∷ []; handlers = [] };
  detached = false;
  registry = no_handlers;
}

-- before the lock-down a message goes out
published :
    (publish_message config (orders ∷ []) connection "orders" "create" null service).0 ≡ ok true
unfolding publish_message publish_route
published = refl

abbrev later : List Op
later =
    serves "orders" echo ∷ publish "orders" "create" null ∷ request "orders" "list" null none ∷ []

unregister_all-IsSilent_example :
    ((run config
        (orders ∷ [])
        connection
        later
        (unregister_all config (orders ∷ []) connection service).0).0.detached
      ≡ true)
    × All IsInward
        (run config
          (orders ∷ [])
          connection
          later
          (unregister_all config (orders ∷ []) connection service).0).1
unregister_all-IsSilent_example =
    unregister_all-IsSilent config (orders ∷ []) connection later service

abbrev failing_registry : Registry
failing_registry = record {
  registry = ("orders", broken) ∷ [];
  rpc_registry = ("orders", broken) ∷ [];
}

abbrev event : BrokerEvent
event = record {
  topic = "orders";
  action = "find";
  payload = null;
  headers = [];
  exchange = "shop";
  routing_key = "orders";
  tag = "tag";
}

-- an error of a handler, without appConfig as the service is constructed, and with one
masked_error : rpc_consumer none failing_registry event ≡ err app_config_error
unfolding rpc_consumer execute_function get_handlers
masked_error = refl

enveloped_error :
    rpc_consumer (some (record { environment = "production" })) failing_registry event
    ≡ ok (failure (error "NotFoundError" "no such order"))
unfolding rpc_consumer execute_function get_handlers
enveloped_error = refl

thrown_error :
    event_consumer (some (record { environment = "production" })) failing_registry event
    ≡ err (error "NotFoundError" "no such order")
unfolding event_consumer execute_function get_handlers
thrown_error = refl

abbrev route_named : String → HttpEntry
route_named n = record {
  method = "GET";
  path = "/";
  data_source = none;
  name = some n;
  mode = none;
  action = none;
  auth = none;
  allow_anonymous = none;
  actions = none;
}

abbrev admin_auth : AuthEntry
admin_auth = record {
  auth_name = "jwt";
  allow_anonymous = none;
  actions = none;
  http_name = some "admin";
}

abbrev routes : List HttpEntry
routes = route_named "open" ∷ route_named "admin" ∷ []
