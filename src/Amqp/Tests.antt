-- ===== src/Amqp/Tests.antt =====
-- The theorems of the AMQP connection layer at concrete inputs.
use nestjs_amqp.Prelude.{
  ℕ, String, Bool, true, false, Option, none, some, List, [], ◌∷◌, ◌++◌, ◌≡◌, ◌≢◌, ◌↔◌, refl,
  length, select, In, inl, inr, subst, All, split, sym, decimal,
}
use nestjs_amqp.JsMap.{get}
use nestjs_amqp.Amqp.Routing.{single, matches_routing_key, matches_pattern, scan}
use nestjs_amqp.Amqp.Routing.Matching.{
  TopicMatches, done, word, star, hash_end, hash_more, patterns, matches_routing_key_complete,
  matches_routing_key_iff, matches_routing_key_hash, topic_words,
}
use nestjs_amqp.Amqp.Retry.{
  RetryPolicyConfig, Message, Thrown, Call, publish, ack, number, text, handle_error,
  retry_properties, headers_of, retry_count_header, same_content, hand_over, schedule_retry,
  attempts_of, retries, wait_queue,
}
use nestjs_amqp.Amqp.Retry.Settle.{handle_error-copy, owed_copy, accepted}
use nestjs_amqp.Amqp.Retry.Copies.{retry_properties-keeps}
use nestjs_amqp.Amqp.Drain.{
  Consumers, begin_setup, finish_setup, cancel_consumer, cancel_all_consumers, Reach, here, next,
  begins,
}
use nestjs_amqp.Amqp.Drain.Latch.{
  IsDrained, cancel_all_consumers-IsDrained, cancel_all_consumers-leaks,
}
use nestjs_amqp.Amqp.Consumer.{
  behavior_ack, retrying, legacy, Kind, rpc, subscribe, MessageHandlerOptions, ConnectionConfig,
  resolve_error_handler, returned, value, Application, Broker, rpc_consumer, subscriber_consumer,
  default_retry_policy, assert_retry_wait_queue,
}
use nestjs_amqp.Amqp.Consumer.Delivery.{assert_retry_wait_queue-forgets, settling, consumers-settle}

two_words : split b'.' "a.b" ≡ "a" ∷ "b" ∷ []
unfolding split
two_words = refl

star_words : split b'.' "a.*" ≡ "a" ∷ "*" ∷ []
unfolding split
star_words = refl

abbrev IsHashless : List String → Type 0
IsHashless = All (λ w. w ≢ "#")

parts-IsHashless : IsHashless ("a" ∷ "*" ∷ [])
parts-IsHashless = ((λ e. cc), ((λ e. cc), tt))

words-IsHashless : IsHashless (split b'.' "a.*")
words-IsHashless = subst IsHashless (sym star_words) parts-IsHashless

named-IsHashless : (p : String) → "a.*" ≡ p → IsHashless (split b'.' p)
named-IsHashless p e = subst (λ p. IsHashless (split b'.' p)) e words-IsHashless

star-IsHashless : (p : String) → In p (patterns (single "a.*")) → IsHashless (split b'.' p)
star-IsHashless p (inl e) = named-IsHashless p e
star-IsHashless p (inr i) = elim i [ ]

star_match : TopicMatches (split b'.' "a.*") (split b'.' "a.b")
unfolding split
star_match = word "a" (star "b" done)

matches_routing_key_complete_example : matches_routing_key "a.b" (single "a.*") ≡ true
matches_routing_key_complete_example =
    matches_routing_key_complete "a.b" (single "a.*") "a.*" (inl refl) star_match

matches_routing_key_iff_example : (matches_routing_key "a.b" (single "a.*") ≡ true) ↔ (
    (p : String) × In p (patterns (single "a.*"))
    × TopicMatches (topic_words p) (topic_words "a.b"))
matches_routing_key_iff_example =
    matches_routing_key_iff "a.b" (single "a.*") (λ e. cc) star-IsHashless

-- an exchange counts no word in the empty key, which the check takes for one
empty_key_accepted : matches_routing_key "" (single "*") ≡ true
unfolding matches_routing_key matches_pattern scan split
empty_key_accepted = refl

hash_words : split b'.' "a.#.b" ≡ ("a" ∷ []) ++ "#" ∷ "b" ∷ []
unfolding split
hash_words = refl

hash_match : TopicMatches (("a" ∷ []) ++ "#" ∷ []) (split b'.' "a.c")
unfolding split
hash_match = word "a" (hash_more "c" (hash_end done))

-- a topic exchange does not route 'a.c' by the pattern 'a.#.b'
matches_routing_key_hash_example : matches_routing_key "a.c" (single "a.#.b") ≡ true
matches_routing_key_hash_example =
    matches_routing_key_hash "a.c" "a.#.b" ("a" ∷ []) ("b" ∷ []) hash_words hash_match

abbrev no_number : String → Option ℕ
no_number s = none

abbrev takes_all : Call → Bool
takes_all c = true

abbrev three_attempts : RetryPolicyConfig
three_attempts = record {
  max_attempts = some 3;
  delay_ms = some 250;
  on_exhausted = none;
  dead_letter = some (record { exchange = "dlx"; routing_key = none });
}

abbrev order_message : Message
order_message = record {
  content = "{}";
  routing_key = "orders.new";
  properties = record {
    headers = some (("X-Request-ID", text "r1") ∷ []);
    expiration = some "1000";
    reply_to = some "replies";
    correlation_id = some "c1";
    other = [];
  };
}

abbrev failure : Thrown
failure = record {
  is_object = true;
  name = some "TypeError";
  message = some "boom";
  shown = "TypeError: boom";
  is_deserialization_error = false;
}

abbrev retried_copy : Call
retried_copy =
    publish "" "orders.retry.250" (same_content "{}")
      (retry_properties three_attempts order_message.properties (some 1) [])

acked_order :
    In
      (accepted ack)
      (handle_error no_number "orders" three_attempts takes_all order_message failure)
unfolding handle_error hand_over schedule_retry retries attempts_of
acked_order = inr (inr (inl refl))

owed_for_order :
    owed_copy no_number "orders" three_attempts takes_all order_message failure ≡ some retried_copy
unfolding owed_copy retries attempts_of wait_queue decimal
owed_for_order = refl

handle_error-copy_example :
    In
      (accepted retried_copy)
      (handle_error no_number "orders" three_attempts takes_all order_message failure)
handle_error-copy_example =
    handle_error-copy no_number "orders" three_attempts takes_all order_message failure retried_copy
      acked_order owed_for_order

retry_properties-keeps_example :
    (get
        (headers_of (retry_properties three_attempts order_message.properties (some 2) []).headers)
        "X-Request-ID"
      ≡ some (text "r1"))
    × (get
          (headers_of
            (retry_properties three_attempts order_message.properties (some 2) []).headers)
          retry_count_header
        ≡ some (number (some 2)))
    × ((retry_properties three_attempts order_message.properties (some 2) []).reply_to
        ≡ some "replies")
    × ((retry_properties three_attempts order_message.properties (some 2) []).correlation_id
        ≡ some "c1")
    × ((retry_properties three_attempts order_message.properties (some 2) []).expiration ≡ none)
retry_properties-keeps_example =
    retry_properties-keeps three_attempts order_message.properties (some 2) [] "X-Request-ID"
      (λ e. cc) refl refl

-- one handler that upper-cases nothing: it answers with its payload
abbrev echo : Application Unit String String
echo = record {
  deserialize = λ msg. returned msg.content;
  raw = λ s. s;
  handler = λ p msg. returned (value p);
  run_custom = λ h msg e. [];
  to_number = no_number;
  warning = λ r. none;
}

abbrev open_broker : Broker String
open_broker = record { takes = takes_all; takes_reply = λ to r. true; refusal = failure }

abbrev plain_options : MessageHandlerOptions Unit
plain_options = record {
  error_handler = none;
  retry = none;
  error_behavior = none;
  routing_key = single "orders.new";
  allow_non_json_messages = false;
}

abbrev legacy_options : MessageHandlerOptions Unit
legacy_options = record plain_options { error_behavior = some behavior_ack }

abbrev plain_config : ConnectionConfig Unit
plain_config = record {
  retry = none;
  default_rpc_error_handler = none;
  default_subscribe_error_behavior = none;
}

resolves_default :
    (kind : Kind)
    → resolve_error_handler plain_options plain_config kind ≡ retrying default_retry_policy
unfolding resolve_error_handler
resolves_default rpc = refl
resolves_default subscribe = refl

resolves_legacy : resolve_error_handler legacy_options plain_config rpc ≡ legacy behavior_ack
unfolding resolve_error_handler
resolves_legacy = refl

assert_retry_wait_queue-forgets_example :
    (assert_retry_wait_queue
      (assert_retry_wait_queue [] "orders.retry.250" false).1
      "orders.retry.250"
      false).0
    ≡ true
assert_retry_wait_queue-forgets_example =
    assert_retry_wait_queue-forgets [] "orders.retry.250" false

consumers-settle_example :
    (length (
        select settling
          (rpc_consumer echo open_broker plain_options plain_config "orders" (some order_message)))
      ≡ 1)
    × (length (
          select settling (
            subscriber_consumer echo open_broker plain_options plain_config "orders"
              (some order_message)))
        ≡ 1)
consumers-settle_example =
    consumers-settle echo open_broker (λ b. refl) plain_options plain_config "orders"
      default_retry_policy order_message (resolves_default rpc) (resolves_default subscribe)

abbrev settling_down : Consumers
settling_down = record {
  canceled = false;
  setups = "orders" ∷ "bills" ∷ [];
  pending = "bills" ∷ [];
  live = ("tag-1", "orders") ∷ [];
}

abbrev settled : Consumers
settled = record settling_down { pending = [] }

orders_known : In "orders" (cancel_all_consumers settled).setups
unfolding cancel_all_consumers cancel_consumer
orders_known = inl refl

cancel_all_consumers-IsDrained_example :
    IsDrained (begin_setup "orders" (cancel_all_consumers settled))
cancel_all_consumers-IsDrained_example =
    cancel_all_consumers-IsDrained settled (begin_setup "orders" (cancel_all_consumers settled))
      refl (next (begins "orders" orders_known) here)

cancel_all_consumers-leaks_example :
    Reach
      (cancel_all_consumers settling_down)
      (finish_setup "tag-2" "bills" (cancel_all_consumers settling_down))
    × ((finish_setup "tag-2" "bills" (cancel_all_consumers settling_down)).canceled ≡ true)
    × (get (finish_setup "tag-2" "bills" (cancel_all_consumers settling_down)).live "tag-2"
        ≡ some "bills")
cancel_all_consumers-leaks_example =
    cancel_all_consumers-leaks settling_down "tag-2" "bills" (inl refl)
