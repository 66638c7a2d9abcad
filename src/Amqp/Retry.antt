-- ===== src/Amqp/Retry.antt =====
-- amqp-lib/amqp/retry-policy.ts: what happens to a message whose handler failed.
-- The calls of the broker are events, each with whether it succeeded: `broker` says which calls do.
-- `Number` on a text is a parameter, with `none` for NaN; a count is a natural number or NaN.
pub mod Settle
pub mod Attempts
pub mod Copies
use nestjs_amqp.Prelude.{
  ℕ, zero, suc, ◌+◌, String, Bool, true, false, ◌&&◌, not, Option, none, some, List, [], ◌∷◌, ◌++◌,
  ◌==◌, if◌then◌else◌, ltb, template, decimal,
}
use nestjs_amqp.JsMap.{JsMap, get, set}

pub data OnExhausted : Type 0 where
  dead_letter drop : OnExhausted

pub record DeadLetter : Type 0 where
  pub exchange : String
  pub routing_key : Option String

pub record RetryPolicyConfig : Type 0 where
  pub max_attempts : Option ℕ
  pub delay_ms : Option ℕ
  pub on_exhausted : Option OnExhausted
  pub dead_letter : Option DeadLetter

abbrev pub retry_count_header : String
retry_count_header = "x-retry-count"

abbrev pub retry_error_header : String
retry_error_header = "x-retry-error"

abbrev pub retry_origin_queue_header : String
retry_origin_queue_header = "x-retry-origin-queue"

abbrev pub retry_exhausted_error : String
retry_exhausted_error = "RetryExhaustedError"

-- `??`
abbrev pub or_else {ℓ} : {A : Type ℓ} → Option A → A → A
or_else none b = b
or_else (some a) b = a

-- `maxAttempts`, `delayMs` and `onExhausted` of a handler, with their defaults
abbrev pub max_attempts_of : RetryPolicyConfig → ℕ
max_attempts_of policy = elim (or_else policy.max_attempts 5) [ zero ↦ 1 | suc n ↦ suc n ]

abbrev pub delay_of : RetryPolicyConfig → ℕ
delay_of policy = or_else policy.delay_ms 0

abbrev default_exhausted : Option DeadLetter → OnExhausted
default_exhausted none = drop
default_exhausted (some d) = dead_letter

abbrev pub on_exhausted_of : RetryPolicyConfig → OnExhausted
on_exhausted_of policy = or_else policy.on_exhausted (default_exhausted policy.dead_letter)

-- a header's value; `number none` is NaN
pub data Value : Type 0 where
  number : Option ℕ → Value
  text : String → Value

pub record Properties : Type 0 where
  pub headers : Option (JsMap Value)
  pub expiration : Option String
  pub reply_to : Option String
  pub correlation_id : Option String
  pub other : JsMap String

pub record Message : Type 0 where
  pub content : String
  pub routing_key : String
  pub properties : Properties

-- What the handler threw. `shown` is `String(error)`.
pub record Thrown : Type 0 where
  pub is_object : Bool
  pub name : Option String
  pub message : Option String
  pub shown : String
  pub is_deserialization_error : Bool

pub record Plain : Type 0 where
  pub name : String
  pub message : String

abbrev truthy_or : Option String → String → String
truthy_or none d = d
truthy_or (some s) d = if s == "" then d else s

abbrev pub error_to_plain : Thrown → Plain
error_to_plain e = record {
  name = if e.is_object then truthy_or e.name "Error" else "Error";
  message = or_else e.message e.shown;
}

-- what is published: the message itself, or the reply to a waiting RPC caller
pub data Body : Type 0 where
  same_content : String → Body
  error_reply : String → String → Plain → Body

pub data Call : Type 0 where
  assert_retry_wait_queue : String → ℕ → String → Call
  publish : String → String → Body → Properties → Call
  ack : Call
  nack : Bool → Call

pub record Event : Type 0 where
  pub call : Call
  pub succeeded : Bool

-- the events of a run, and whether it ran through without a throw
abbrev pub Run : Type 0
Run = List Event × Bool

abbrev pub attempt : (Call → Bool) → Call → Run
attempt broker c = (record { call = c; succeeded = broker c } ∷ [], broker c)

infixl 5 ◌and_then◌
abbrev pub ◌and_then◌ : Run → Run → Run
(es, true) and_then (fs, b) = (es ++ fs, b)
(es, false) and_then r = (es, false)

-- `try { … } catch { … }`
abbrev pub catching : Run → Run → Run
catching (es, true) handler = (es, true)
catching (es, false) (fs, b) = (es ++ fs, b)

abbrev pub quiet : Run
quiet = ([], true)

abbrev pub show_count : Option ℕ → String
show_count none = "NaN"
show_count (some n) = decimal n

-- `attempts < maxAttempts`, which NaN is not
abbrev pub below : Option ℕ → ℕ → Bool
below none m = false
below (some n) m = ltb n m

abbrev pub plus_one : Option ℕ → Option ℕ
plus_one none = none
plus_one (some n) = some (n + 1)

abbrev pub headers_of : Option (JsMap Value) → JsMap Value
headers_of none = []
headers_of (some h) = h

abbrev pub set_all : JsMap Value → JsMap Value → JsMap Value
set_all m [] = m
set_all m ((k, v) ∷ extra) = set_all (set m k v) extra

-- Copy of the original properties with the incremented retry counter.
unfoldable pub retry_properties :
    RetryPolicyConfig → Properties → Option ℕ → JsMap Value → Properties
retry_properties policy p attempts extra = record p {
  headers = some (set_all (set (headers_of p.headers) retry_count_header (number attempts)) extra);
  expiration = if ltb 0 (delay_of policy) then none else p.expiration;
}

unfoldable pub wait_queue : String → ℕ → String
wait_queue queue ms = template (queue ∷ ".retry." ∷ decimal ms ∷ [])

module _ (to_number : String → Option ℕ) (queue : String) (policy : RetryPolicyConfig)
    (broker : Call → Bool) where
  abbrev pub count_of : Option Value → Option ℕ
  count_of none = some 0
  count_of (some (number n)) = n
  count_of (some (text s)) = to_number s

  unfoldable pub attempts_of : Message → Option ℕ
  attempts_of msg = plus_one (count_of (get (headers_of msg.properties.headers) retry_count_header))

  -- a copy of the message, by the default exchange to a queue
  abbrev pub copy_call : Message → Option ℕ → String → Call
  copy_call msg attempts to =
      publish "" to (same_content msg.content) (retry_properties policy msg.properties attempts [])

  unfoldable pub schedule_retry : Message → Option ℕ → Run
  schedule_retry msg attempts =
      let ms = delay_of policy in
      let waiting = wait_queue queue ms in
      if ltb 0 ms
      then (attempt broker (assert_retry_wait_queue waiting ms queue)
          and_then attempt broker (copy_call msg attempts waiting))
      else attempt broker (copy_call msg attempts queue)

  -- the reply, and the properties that it echoes
  abbrev pub reply_call : Message → Thrown → Option ℕ → String → String → Call
  reply_call msg e attempts to correlation_id =
      let cause = error_to_plain e in
      publish "" to
        (error_reply retry_exhausted_error
          (template (
            "Handler for queue '"
            ∷ queue
            ∷ "' failed after "
            ∷ show_count attempts
            ∷ " attempt(s): "
            ∷ cause.message
            ∷ []))
          cause)
        (record {
          headers = msg.properties.headers;
          expiration = none;
          reply_to = none;
          correlation_id = some correlation_id;
          other = [];
        })

  abbrev reply_to_caller : Message → Thrown → Option ℕ → Option String → Option String → Run
  reply_to_caller msg e attempts none correlation_id = quiet
  reply_to_caller msg e attempts (some to) none = quiet
  reply_to_caller msg e attempts (some to) (some correlation_id) =
      if to == ""
      then quiet
      else if correlation_id == ""
      then quiet
      else catching (attempt broker (reply_call msg e attempts to correlation_id)) quiet

  unfoldable pub reply_error_to_rpc_caller : Message → Thrown → Option ℕ → Run
  reply_error_to_rpc_caller msg e attempts =
      reply_to_caller msg e attempts msg.properties.reply_to msg.properties.correlation_id

  abbrev pub dead_letter_call : Message → Thrown → Option ℕ → DeadLetter → Call
  dead_letter_call msg e attempts d =
      publish d.exchange (or_else d.routing_key msg.routing_key) (same_content msg.content) (
        retry_properties policy msg.properties attempts (
          (retry_error_header, text (error_to_plain e).message)
          ∷ (retry_origin_queue_header, text queue)
          ∷ []))

  abbrev exhaust_to : Message → Thrown → Option ℕ → OnExhausted → Option DeadLetter → Run
  exhaust_to msg e attempts drop d = quiet
  exhaust_to msg e attempts dead_letter none = quiet
  exhaust_to msg e attempts dead_letter (some d) =
      if d.exchange == "" then quiet else attempt broker (dead_letter_call msg e attempts d)

  unfoldable pub exhaust : Message → Thrown → Option ℕ → Run
  exhaust msg e attempts = exhaust_to msg e attempts (on_exhausted_of policy) policy.dead_letter

  -- whether the message goes back to the work queue
  unfoldable pub retries : Message → Thrown → Bool
  retries msg e = not e.is_deserialization_error && below (attempts_of msg) (max_attempts_of policy)

  -- the body of the `try`, and the handler
  unfoldable pub hand_over : Message → Thrown → Run
  hand_over msg e =
      let attempts = attempts_of msg in
      (if retries msg e
        then schedule_retry msg attempts
        else (reply_error_to_rpc_caller msg e attempts and_then exhaust msg e attempts))

  unfoldable pub handle_error : Message → Thrown → List Event
  handle_error msg e =
      (catching (hand_over msg e and_then attempt broker ack)
        (catching (attempt broker (nack true)) quiet)).0
