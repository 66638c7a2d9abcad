-- ===== src/Broker/Registry.antt =====
-- modules/broker/services/handler-registry.service.ts: the handlers of topics, in two maps.
pub mod Contract
use nestjs_amqp.Prelude.{
  String, Bool, true, false, Option, none, some, if◌then◌else◌, template, [], ◌∷◌, List,
}
use nestjs_amqp.Prelude.Result.{AppError, Result, ok, err, error}
use nestjs_amqp.JsMap.{JsMap, get, has, set, delete}
use nestjs_amqp.Admin.Manifest.{Json}

-- what a handler gets
pub record BrokerEvent : Type 0 where
  pub topic : String
  pub action : String
  pub payload : Json
  pub headers : JsMap Json
  pub exchange : String
  pub routing_key : String
  pub tag : String

-- RpcEventHandler: it may throw or reject
abbrev pub Handler : Type 0
Handler = BrokerEvent → Result Json

pub data Kind : Type 0 where
  fun : Kind
  rpc : Kind

pub record Registry : Type 0 where
  pub registry : JsMap Handler
  pub rpc_registry : JsMap Handler

abbrev pub no_handlers : Registry
no_handlers = record { registry = []; rpc_registry = [] }

abbrev already : String → AppError
already topic = error "Error" (template ("Handler for topic " ∷ topic ∷ " already exists" ∷ []))

unfoldable pub register : Kind → String → Handler → Registry → Result (Unit {0}) × Registry
register fun topic handler st =
    if has st.registry topic
    then (err (already topic), st)
    else (ok tt, record st { registry = set st.registry topic handler })
register rpc topic handler st =
    if has st.rpc_registry topic
    then (err (already topic), st)
    else (ok tt, record st { rpc_registry = set st.rpc_registry topic handler })

unfoldable pub get_handlers : Kind → String → Registry → Option Handler
get_handlers fun topic st = get st.registry topic
get_handlers rpc topic st = get st.rpc_registry topic

unfoldable pub unregister : Kind → String → Registry → Bool × Registry
unregister fun topic st = (has st.registry topic, record st { registry = delete st.registry topic })
unregister rpc topic st =
    (has st.rpc_registry topic, record st { rpc_registry = delete st.rpc_registry topic })

unfoldable pub clear : Registry → Registry
clear st = no_handlers
