-- ===== src/Amqp/Consumer.antt =====
-- amqp-lib/amqp/connection.ts and errorBehaviors.ts: how a consumer treats a message.
-- The handler, the deserializers and a custom error handler are the application's: parameters. The
-- calls of the broker are events, as in Amqp/Retry; a call that the broker refuses throws. The
-- properties that a reply carries over from its request are left out.
pub mod Delivery
use nestjs_amqp.Prelude.{
  ℕ, zero, suc, ◌+◌, String, Bool, true, false, ◌&&◌, not, Option, none, some, List, [], ◌∷◌, ◌++◌,
  ◌==◌, if◌then◌else◌, map, template, includes,
}
use nestjs_amqp.Amqp.Routing.{PatternArg, matches_routing_key}
use nestjs_amqp.Amqp.Retry.{RetryPolicyConfig, Message, Properties, Thrown, handle_error}
use nestjs_amqp.Amqp.Retry

-- MessageHandlerErrorBehavior; `nack` is also the default of the switch
pub data ErrorBehavior : Type 0 where
  behavior_ack behavior_requeue behavior_nack : ErrorBehavior

-- what `resolveErrorHandler` returns
pub data ErrorHandler (H : Type 0) : Type 0 where
  custom : H → ErrorHandler H
  retrying : RetryPolicyConfig → ErrorHandler H
  legacy : ErrorBehavior → ErrorHandler H

pub data Kind : Type 0 where
  rpc subscribe : Kind

pub record MessageHandlerOptions (H : Type 0) : Type 0 where
  pub error_handler : Option H
  pub retry : Option RetryPolicyConfig
  pub error_behavior : Option ErrorBehavior
  pub routing_key : PatternArg
  pub allow_non_json_messages : Bool

pub record ConnectionConfig (H : Type 0) : Type 0 where
  pub retry : Option RetryPolicyConfig
  pub default_rpc_error_handler : Option H
  pub default_subscribe_error_behavior : Option ErrorBehavior

abbrev pub default_retry_policy : RetryPolicyConfig
default_retry_policy = record {
  max_attempts = some 5;
  delay_ms = some 0;
  on_exhausted = some Retry.drop;
  dead_letter = none;
}

-- `if (o) return f(o)` before the rest
abbrev pub first_of : {A B : Type 0} → Option A → (A → B) → B → B
first_of none f rest = rest
first_of (some a) f rest = f a

abbrev rpc_default : {H : Type 0} → Kind → ConnectionConfig H → Option H
rpc_default rpc config = config.default_rpc_error_handler
rpc_default subscribe config = none

unfoldable pub resolve_error_handler :
    {H : Type 0} → MessageHandlerOptions H → ConnectionConfig H → Kind → ErrorHandler H
resolve_error_handler options config kind = first_of options.error_handler custom (
    first_of options.retry retrying (
      first_of options.error_behavior legacy (
        first_of config.retry retrying (
          first_of (rpc_default kind config) custom (
            first_of config.default_subscribe_error_behavior legacy
              (retrying default_retry_policy))))))

-- the call that a legacy behavior makes
unfoldable pub legacy_call : ErrorBehavior → Retry.Call
legacy_call behavior_ack = Retry.ack
legacy_call behavior_requeue = Retry.nack true
legacy_call behavior_nack = Retry.nack false

-- a call of the application's code, which may throw
pub data Tried (A : Type 0) : Type 0 where
  returned : A → Tried A
  threw : Thrown → Tried A

-- what a handler returns: `new Nack(requeue)`, or a value
pub data Response (R : Type 0) : Type 0 where
  nack_response : Bool → Response R
  value : R → Response R

-- what happened to a message: the handler ran on a payload, or the broker was called
pub data Step (P R : Type 0) : Type 0 where
  handled : P → Step P R
  replied : String → R → Bool → Step P R
  called : Retry.Event → Step P R

-- the steps, and what was thrown
abbrev pub Steps : Type 0 → Type 0 → Type 0
Steps P R = List (Step P R) × Option Thrown

infixl 5 ◌before◌
abbrev pub ◌before◌ : {P R : Type 0} → Steps P R → Steps P R → Steps P R
(xs, none) before (ys, t) = (xs ++ ys, t)
(xs, some e) before s = (xs, some e)

abbrev deserialization_message : Thrown → String
deserialization_message cause =
    template ("Failed to deserialize message: " ∷ Retry.or_else cause.message cause.shown ∷ [])

unfoldable pub deserialization_error : Thrown → Thrown
deserialization_error cause = record {
  is_object = true;
  name = some "MessageDeserializationError";
  message = some (deserialization_message cause);
  shown = template ("MessageDeserializationError: " ∷ deserialization_message cause ∷ []);
  is_deserialization_error = true;
}

-- What is not the library's code: `H` are custom error handlers, `P` payloads, `R` responses.
pub record Application (H P R : Type 0) : Type 1 where
  pub deserialize : Message → Tried P
  pub raw : String → P
  pub handler : P → Message → Tried (Response R)
  pub run_custom : H → Message → Thrown → List Retry.Event
  pub to_number : String → Option ℕ
  -- what the serializer throws on a response of a subscriber, if that is not void
  pub warning : R → Option Thrown

-- What the broker does with the calls: whether it takes them, and what a refused call throws.
pub record Broker (R : Type 0) : Type 0 where
  pub takes : Retry.Call → Bool
  pub takes_reply : String → R → Bool
  pub refusal : Thrown

module _ {H P R : Type 0} (app : Application H P R) (broker : Broker R) where
  abbrev raw_message : Bool → String → Tried P → Tried P
  raw_message true content (threw e) = returned (app.raw content)
  raw_message false content (threw e) = threw e
  raw_message allowed content (returned p) = returned p

  unfoldable pub deserialize_message : MessageHandlerOptions H → Message → Tried P
  deserialize_message options msg =
      raw_message options.allow_non_json_messages msg.content (app.deserialize msg)

  abbrev as_deserialization_error : Tried P → Tried P
  as_deserialization_error (returned p) = returned p
  as_deserialization_error (threw e) = threw (deserialization_error e)

  unfoldable pub try_deserialize_message : MessageHandlerOptions H → Message → Tried P
  try_deserialize_message options msg = as_deserialization_error (deserialize_message options msg)

  abbrev pub refused_as : Bool → Option Thrown
  refused_as true = none
  refused_as false = some broker.refusal

  abbrev pub call : Retry.Call → Steps P R
  call c =
      (called (record { call = c; succeeded = broker.takes c }) ∷ [], refused_as (broker.takes c))

  abbrev pub send_reply : String → R → Steps P R
  send_reply to r =
      (replied to r (broker.takes_reply to r) ∷ [], refused_as (broker.takes_reply to r))

  abbrev reply_if : Option String → R → Steps P R
  reply_if none r = ([], none)
  reply_if (some to) r = if to == "" then ([], none) else send_reply to r

  abbrev respond_rpc : Message → Tried (Response R) → Steps P R
  respond_rpc msg (threw e) = ([], some e)
  respond_rpc msg (returned (nack_response requeue)) = call (Retry.nack requeue)
  respond_rpc msg (returned (value r)) = reply_if msg.properties.reply_to r before call Retry.ack

  -- the warning about a response, and then the ack
  abbrev warned : Option Thrown → Steps P R
  warned none = call Retry.ack
  warned (some e) = ([], some e)

  abbrev respond_subscriber : Tried (Response R) → Steps P R
  respond_subscriber (threw e) = ([], some e)
  respond_subscriber (returned (nack_response requeue)) = call (Retry.nack requeue)
  respond_subscriber (returned (value r)) = warned (app.warning r)

  -- the handler runs on a payload that was read
  abbrev handle_with : Message → (Tried (Response R) → Steps P R) → Tried P → Steps P R
  handle_with msg respond (threw e) = ([], some e)
  handle_with msg respond (returned p) = (handled p ∷ [], none) before respond (app.handler p msg)

  -- the body of the `try` of an RPC consumer, and of a subscriber
  unfoldable pub rpc_body : MessageHandlerOptions H → Message → Steps P R
  rpc_body options msg =
      let body = handle_with msg (respond_rpc msg) (try_deserialize_message options msg) in
      if not (matches_routing_key msg.routing_key options.routing_key)
      then call (Retry.nack false)
      else body

  unfoldable pub subscriber_body : MessageHandlerOptions H → Message → Steps P R
  subscriber_body options msg =
      handle_with msg respond_subscriber (try_deserialize_message options msg)

  -- what the resolved handler does; an error that it throws is logged
  unfoldable pub on_error : String → ErrorHandler H → Message → Thrown → List Retry.Event
  on_error queue (custom h) msg e = app.run_custom h msg e
  on_error queue (retrying policy) msg e =
      handle_error app.to_number queue policy broker.takes msg e
  on_error queue (legacy b) msg e =
      record { call = legacy_call b; succeeded = broker.takes (legacy_call b) } ∷ []

  abbrev caught : (Thrown → List Retry.Event) → Steps P R → List (Step P R)
  caught handle (xs, none) = xs
  caught handle (xs, some e) = xs ++ map called (handle e)

  -- the consumers of setupRpcChannel and setupSubscriberChannel; a null message is dropped
  unfoldable pub rpc_consumer :
      MessageHandlerOptions H → ConnectionConfig H → String → Option Message → List (Step P R)
  unfolding rpc_body on_error
  rpc_consumer options config queue none = []
  rpc_consumer options config queue (some msg) =
      caught (on_error queue (resolve_error_handler options config rpc) msg) (rpc_body options msg)

  unfoldable pub subscriber_consumer :
      MessageHandlerOptions H → ConnectionConfig H → String → Option Message → List (Step P R)
  unfolding subscriber_body on_error
  subscriber_consumer options config queue none = []
  subscriber_consumer options config queue (some msg) =
      caught (on_error queue (resolve_error_handler options config subscribe) msg)
        (subscriber_body options msg)

-- assertRetryWaitQueue: the names declared in this process, the set-up that the broker accepts or
-- not, and whether the call returns
unfoldable pub assert_retry_wait_queue : List String → String → Bool → Bool × List String
assert_retry_wait_queue asserted wait_queue declares =
    if includes asserted wait_queue then (true, asserted) else (declares, wait_queue ∷ asserted)
