-- ===== src/Amqp/Retry/Attempts.antt =====
-- How often a message is tried.
use nestjs_amqp.Prelude.{
  ℕ, zero, suc, String, Bool, ◌&&◌, Option, none, some, List, [], ◌∷◌, ◌==◌, if◌then◌else◌, ◌≡◌,
}
use nestjs_amqp.Amqp.Retry.{
  RetryPolicyConfig, Message, Thrown, same_content, Call, publish, Event, Run, retry_properties,
  attempts_of, handle_error,
}

module _ (to_number : String → Option ℕ) (queue : String) (policy : RetryPolicyConfig)
    (broker : Call → Bool) (arrive : Message → Message) (thrown : Message → Thrown) where
  -- The copy among the events that comes back to the work queue: the default exchange routes it
  -- there, or the wait queue dead-letters it there.
  abbrev comes_back : Call → Bool → Option Message
  comes_back (publish exchange key (same_content content) props) succeeded =
      if succeeded && (exchange == "")
      then some (record { content = content; routing_key = queue; properties = props })
      else none
  comes_back c succeeded = none

  unfoldable pub next_message : List Event → Option Message
  next_message [] = none
  next_message (e ∷ es) =
      let rest = next_message es in
      elim (comes_back e.call e.succeeded) [ none ↦ rest | some m ↦ some m ]

  abbrev one_more : Option ℕ → Option ℕ
  one_more none = none
  one_more (some n) = some (suc n)

  abbrev count_on : Option Message → (Message → Option ℕ) → Option ℕ
  count_on none later = some 1
  count_on (some copy) later = one_more (later (arrive copy))

  -- How often the handler runs for a message that fails each time, and `none` if the fuel runs out.
  unfoldable pub deliveries : ℕ → Message → Option ℕ
  unfolding next_message
  deliveries zero msg = none
  deliveries (suc fuel) msg =
      count_on (next_message (handle_error to_number queue policy broker msg (thrown msg)))
        (deliveries fuel)

  -- no event of the run brings the message back
  abbrev IsFinal : Run → Type 0
  IsFinal r = next_message r.0 ≡ none

  copied : Message → Message
  copied msg = record {
    content = msg.content;
    routing_key = queue;
    properties =
        retry_properties policy msg.properties (attempts_of to_number queue policy broker msg) [];
  }
