-- ===== src/Amqp/Drain.antt =====
-- amqp-lib/amqp/connection.ts: consumers are set up, again on each reconnect, and are all cancelled
-- by a graceful drain. A set-up is in two steps: it looks at the latch, and later, when the broker
-- has answered the consume call, its consumer is registered.
pub mod Latch
use nestjs_amqp.Prelude.{
  String, Bool, true, false, Option, none, some, List, [], ◌∷◌, ◌++◌, ◌==◌, ◌≡◌, if◌then◌else◌,
  template, map, In,
}
use nestjs_amqp.Prelude.Result.{Result, ok, err, error}
use nestjs_amqp.JsMap.{JsMap, get, set, delete}

-- `setups` are the queues given to addSetup; `pending` those whose set-up has passed the latch
pub record Consumers : Type 0 where
  pub canceled : Bool
  pub setups : List String
  pub pending : List String
  pub live : JsMap String

unfoldable pub consumer_factory : String → Consumers → Result Consumers
consumer_factory queue st =
    if st.canceled
    then err (
        error "Error" (
          template (
            "Consumers were canceled (graceful drain): refusing to subscribe to queue '" ∷ queue
            ∷ "'" ∷ [])))
    else ok (record st { setups = st.setups ++ queue ∷ [] })

-- the first part of a set-up, which the connection manager runs on every connect
unfoldable pub begin_setup : String → Consumers → Consumers
begin_setup queue st = if st.canceled then st else record st { pending = st.pending ++ queue ∷ [] }

abbrev drop_one : String → List String → List String
drop_one q [] = []
drop_one q (p ∷ ps) = let rest = drop_one q ps in if p == q then ps else p ∷ rest

-- the second part: registerConsumerForQueue
unfoldable pub finish_setup : String → String → Consumers → Consumers
finish_setup tag queue st = record st {
  pending = drop_one queue st.pending;
  live = set st.live tag queue;
}

-- A failing cancel on the channel is logged, and the entry goes all the same
abbrev cancel_found : Option String → String → Consumers → Consumers
cancel_found none tag st = st
cancel_found (some queue) tag st = record st { live = delete st.live tag }

unfoldable pub cancel_consumer : String → Consumers → Consumers
cancel_consumer tag st = cancel_found (get st.live tag) tag st

abbrev cancel_each : List String → Consumers → Consumers
cancel_each [] st = st
cancel_each (tag ∷ tags) st = cancel_each tags (cancel_consumer tag st)

unfoldable pub cancel_all_consumers : Consumers → Consumers
cancel_all_consumers st =
    cancel_each (map (λ (e : String × String). e.0) st.live) (record st { canceled = true })

-- what happens to the consumers of a connection, apart from the drain
pub data Step : Consumers → Consumers → Type 0 where
  subscribes : {st st' : Consumers} (q : String) → consumer_factory q st ≡ ok st' → Step st st'
  begins : {st : Consumers} (q : String) → In q st.setups → Step st (begin_setup q st)
  finishes : {st : Consumers} (tag q : String) → In q st.pending → Step st (finish_setup tag q st)
  cancels : {st : Consumers} (tag : String) → Step st (cancel_consumer tag st)

pub data Reach : Consumers → Consumers → Type 0 where
  here : {st : Consumers} → Reach st st
  next : {st st' st'' : Consumers} → Step st st' → Reach st' st'' → Reach st st''
