-- ===== src/Amqp/Request.antt =====
-- amqp-lib/amqp/connection.ts: requests and their replies. All requests of an instance listen to one
-- stream of replies; each one ends with its first reply, its timeout or a failing publish. What the
-- deserializer makes of a content is a parameter.
pub mod Replies
mod Tests
use nestjs_amqp.Prelude.{
  ℕ, zero, suc, String, Bool, true, false, ◌&&◌, not, Option, none, some, List, [], ◌∷◌, ◌++◌, ◌==◌,
  if◌then◌else◌, map, nat_eq, template, decimal,
}
use nestjs_amqp.Prelude.Result.{AppError, Result, ok, err, error, ◌>>=◌}
use nestjs_amqp.Admin.Manifest.{Json}

-- a raw reply: its properties that are read, and its content
pub record RawReply : Type 0 where
  pub correlation_id : Option String
  pub request_id : Option String
  pub content : String

-- CorrelationMessage
pub record CorrelationMessage : Type 0 where
  pub correlation_id : String
  pub request_id : Option String
  pub message : Option Json

-- an empty content is not parsed
abbrev content_of : (String → Result Json) → String → Result (Option Json)
content_of deserializer content =
    if content == "" then ok none else (deserializer content >>= λ message. ok (some message))

-- An error of the deserializer leaves the callback of the reply consumer.
abbrev correlation_message :
    String → Option String → Result (Option Json) → Option CorrelationMessage
correlation_message id request_id (err e) = none
correlation_message id request_id (ok message) =
    some (record { correlation_id = id; request_id = request_id; message = message })

-- what is put on the stream: nothing for a cancelled consumer or a reply without an id
unfoldable pub process_direct_reply :
    (String → Result Json) → Option RawReply → Option CorrelationMessage
process_direct_reply deserializer none = none
process_direct_reply deserializer (some raw) = elim raw.correlation_id [
  | none ↦ none
  | some id ↦ correlation_message id raw.request_id (content_of deserializer raw.content)
]

-- the first of reply and timeout
pub data Answer : Type 0 where
  got : Option Json → Answer
  timed_out : Answer

-- a request under way: `overdue` is what its timeout throws, `answer` is what the race came to, `confirmed` that the publish is done, and
-- `settled` how the caller's promise ended
pub record Pending : Type 0 where
  pub correlation_id : String
  pub request_id : Option String
  pub overdue : AppError
  pub answer : Option Answer
  pub confirmed : Bool
  pub settled : Option (Result (Option Json))

abbrev same_id : Option String → Option String → Bool
same_id none wanted = false
same_id (some id) none = false
same_id (some id) (some wanted) = id == wanted

abbrev is_given : Option String → Bool
is_given none = false
is_given (some s) = not (s == "")

-- the filter of a request on the stream
unfoldable pub answers : Pending → CorrelationMessage → Bool
answers p x =
    if is_given p.request_id
    then x.correlation_id == p.correlation_id && same_id x.request_id p.request_id
    else x.correlation_id == p.correlation_id

-- RpcTimeoutError
abbrev timeout_error : ℕ → String → String → AppError
timeout_error timeout exchange routing_key = error "RpcTimeoutError" (
    template (
      "Failed to receive response within timeout of "
      ∷ decimal timeout
      ∷ "ms for exchange \""
      ∷ exchange
      ∷ "\" and routing key \""
      ∷ routing_key
      ∷ "\""
      ∷ []))

unfoldable pub start : String → Option String → AppError → Pending
start correlation_id request_id overdue = record {
  correlation_id = correlation_id;
  request_id = request_id;
  overdue = overdue;
  answer = none;
  confirmed = false;
  settled = none;
}

-- Promise.all: resolved by the answer once the publish is confirmed too
abbrev resolved_by : Option Answer → Option (Result (Option Json))
resolved_by (some (got message)) = some (ok message)
resolved_by a = none

abbrev settled_as : Option (Result (Option Json)) → Bool → Pending → Pending
settled_as (some r) confirmed p = p
settled_as none false p = p
settled_as none true p = record p { settled = resolved_by p.answer }

abbrev settle_pending : Pending → Pending
settle_pending p = settled_as p.settled p.confirmed p

abbrev first_answer : Option Answer → Answer → Option Answer
first_answer (some a) b = some a
first_answer none b = some b

abbrev first_result :
    Option (Result (Option Json)) → Result (Option Json) → Option (Result (Option Json))
first_result (some r) s = some r
first_result none s = some s

unfoldable pub on_reply : CorrelationMessage → Pending → Pending
on_reply x p =
    if answers p x
    then settle_pending (record p { answer = first_answer p.answer (got x.message) })
    else p

abbrev timed : Option Answer → Pending → Pending
timed (some a) p = p
timed none p = record p {
  answer = some timed_out;
  settled = first_result p.settled (err p.overdue);
}

unfoldable pub on_timeout : Pending → Pending
on_timeout p = timed p.answer p

unfoldable pub on_publish : Option AppError → Pending → Pending
on_publish none p = settle_pending (record p { confirmed = true })
on_publish (some e) p = record p { settled = first_result p.settled (err e) }

abbrev at_place : (Pending → Pending) → ℕ → List Pending → List Pending
at_place f i [] = []
at_place f zero (p ∷ ps) = f p ∷ ps
at_place f (suc i) (p ∷ ps) = p ∷ at_place f i ps

pub data Event : Type 0 where
  requests : (correlation_id : String) → (request_id : Option String) → (overdue : AppError) → Event
  replies : Option RawReply → Event
  times_out : ℕ → Event
  publishes : ℕ → Option AppError → Event

abbrev spread_reply : Option CorrelationMessage → List Pending → List Pending
spread_reply none ps = ps
spread_reply (some x) ps = map (on_reply x) ps

unfoldable pub happen : (String → Result Json) → Event → List Pending → List Pending
happen deserializer (requests correlation_id request_id overdue) ps =
    ps ++ start correlation_id request_id overdue ∷ []
happen deserializer (replies raw) ps = spread_reply (process_direct_reply deserializer raw) ps
happen deserializer (times_out i) ps = at_place on_timeout i ps
happen deserializer (publishes i e) ps = at_place (on_publish e) i ps

unfoldable pub run_events : (String → Result Json) → List Event → List Pending → List Pending
run_events deserializer [] ps = ps
run_events deserializer (e ∷ es) ps = run_events deserializer es (happen deserializer e ps)
