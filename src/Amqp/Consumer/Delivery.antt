-- ===== src/Amqp/Consumer/Delivery.antt =====
-- What becomes of a message that a consumer takes.
use nestjs_amqp.Prelude.{
  suc, String, Bool, true, false, Option, none, some, List, [], ◌∷◌, ◌==◌, map, ◌≡◌, ◌⊎◌, inl, inr,
  refl, sym, ap, ◌∙◌, arith, eq_refl, Bool-cases, length, select, In, subst, In-append,
  select-append_none,
}
use nestjs_amqp.Amqp.Routing.{matches_routing_key}
use nestjs_amqp.Amqp.Retry.{RetryPolicyConfig, Message, Properties, Thrown, handle_error}
use nestjs_amqp.Amqp.Retry
use nestjs_amqp.Amqp.Retry.Settle.{settles, handle_error-settles}
use nestjs_amqp.Amqp.Consumer.{
  ErrorBehavior, retrying, legacy, Kind, rpc, subscribe, MessageHandlerOptions, ConnectionConfig,
  resolve_error_handler, Tried, returned, threw, Response, nack_response, value, Step, handled,
  replied, called, Steps, ◌before◌, Application, Broker, try_deserialize_message, rpc_body,
  subscriber_body, on_error, rpc_consumer, subscriber_consumer, assert_retry_wait_queue, call,
  respond_rpc, respond_subscriber, warned, handle_with, caught, reply_if,
}

-- Every error handler that the caller did not set is a retry policy, and a legacy behavior is used
-- only where the subscription has neither an error handler nor a retry policy of its own.
pub resolve_error_handler-legacy :
    {H : Type 0} (options : MessageHandlerOptions H) (config : ConnectionConfig H) (kind : Kind)
    (b : ErrorBehavior)
    → resolve_error_handler options config kind ≡ legacy b
    → (options.error_handler ≡ none) × (options.retry ≡ none)
unfolding resolve_error_handler
resolve_error_handler-legacy options config kind b h = ground arith

-- A wait queue whose declaration was refused counts as declared from the second call on.
pub assert_retry_wait_queue-forgets :
    (asserted : List String) (q : String) (declares : Bool)
    → (assert_retry_wait_queue (assert_retry_wait_queue asserted q false).1 q declares).0 ≡ true
unfolding assert_retry_wait_queue
assert_retry_wait_queue-forgets asserted q declares = ground (arith, eq_refl q)

unfoldable pub settling : {P R : Type 0} → Step P R → Bool
unfolding settles
settling (handled p) = false
settling (replied to r b) = false
settling (called e) = settles e

settling-called :
    (P R : Type 0) (es : List Retry.Event)
    → length (select {A = Step P R} settling (map called es)) ≡ length (select settles es)
unfolding settling
settling-called P R [] = refl
settling-called P R (e ∷ es) = elim (Bool-cases (settles e)) [
  | inl counts ↦ rw counts (ap suc (settling-called P R es))
  | inr other ↦ rw other (settling-called P R es)
]

module _ {H P R : Type 0} (app : Application H P R) (broker : Broker R)
    (takes_nack : (b : Bool) → broker.takes (Retry.nack b) ≡ true) where
  -- a run that threw settled nothing, and one that did not settled once
  IsOneIfDone : Steps P R → Type 0
  IsOneIfDone (xs, none) = length (select settling xs) ≡ 1
  IsOneIfDone (xs, some e) = select settling xs ≡ []

  call_nack : (b : Bool) → IsOneIfDone (call app broker (Retry.nack b))
  unfolding IsOneIfDone settling settles
  call_nack b = rw (takes_nack b) refl

  call_ack : IsOneIfDone (call app broker Retry.ack)
  unfolding IsOneIfDone settling settles
  call_ack = elim (Bool-cases (broker.takes Retry.ack)) [
    | inl takes ↦ rw takes refl
    | inr refuses ↦ rw refuses refl
  ]

  after_quiet :
      (xs : List (Step P R)) (t : Steps P R)
      → select settling xs ≡ []
      → IsOneIfDone t
      → IsOneIfDone ((xs, none) before t)
  unfolding IsOneIfDone
  after_quiet xs (ys, none) q h = ap length (select-append_none settling xs ys q) ∙ h
  after_quiet xs (ys, some e) q h = select-append_none settling xs ys q ∙ h

  reply_then_ack :
      (to : Option String) (r : R)
      → IsOneIfDone (reply_if app broker to r before call app broker Retry.ack)
  unfolding IsOneIfDone settling
  reply_then_ack none r = call_ack
  reply_then_ack (some to) r = elim (Bool-cases (to == "")) [
    | inl nobody ↦ rw nobody call_ack
    | inr asked ↦ elim (Bool-cases (broker.takes_reply to r)) [
      | inl takes ↦
          rw (asked, takes)
            (after_quiet (replied to r true ∷ []) (call app broker Retry.ack) refl call_ack)
      | inr refuses ↦ rw (asked, refuses) refl
    ]
  ]

  respond-settles :
      (msg : Message) (t : Tried (Response R)) → IsOneIfDone (respond_rpc app broker msg t)
  unfolding IsOneIfDone settling
  respond-settles msg (threw e) = refl
  respond-settles msg (returned (nack_response b)) = call_nack b
  respond-settles msg (returned (value r)) = reply_then_ack msg.properties.reply_to r

  warned-settles : (t : Option Thrown) → IsOneIfDone (warned app broker t)
  unfolding IsOneIfDone
  warned-settles none = call_ack
  warned-settles (some e) = refl

  subscriber-settles : (t : Tried (Response R)) → IsOneIfDone (respond_subscriber app broker t)
  unfolding IsOneIfDone
  subscriber-settles (threw e) = refl
  subscriber-settles (returned (nack_response b)) = call_nack b
  subscriber-settles (returned (value r)) = warned-settles (app.warning r)

  handle_with-settles :
      (msg : Message) (respond : Tried (Response R) → Steps P R) (t : Tried P)
      → ((o : Tried (Response R)) → IsOneIfDone (respond o))
      → IsOneIfDone (handle_with app broker msg respond t)
  unfolding IsOneIfDone settling
  handle_with-settles msg respond (threw e) h = refl
  handle_with-settles msg respond (returned p) h =
      after_quiet (handled p ∷ []) (respond (app.handler p msg)) refl (h (app.handler p msg))

  rpc_body-settles :
      (options : MessageHandlerOptions H) (msg : Message)
      → IsOneIfDone (rpc_body app broker options msg)
  unfolding rpc_body
  rpc_body-settles options msg =
      elim (Bool-cases (matches_routing_key msg.routing_key options.routing_key)) [
        | inl matches ↦ rw matches (
            handle_with-settles msg (respond_rpc app broker msg)
              (try_deserialize_message app broker options msg) (respond-settles msg))
        | inr misses ↦ rw misses (call_nack false)
      ]

  subscriber_body-settles :
      (options : MessageHandlerOptions H) (msg : Message)
      → IsOneIfDone (subscriber_body app broker options msg)
  unfolding subscriber_body
  subscriber_body-settles options msg =
      handle_with-settles msg (respond_subscriber app broker)
        (try_deserialize_message app broker options msg) subscriber-settles

  caught-settles :
      (handle : Thrown → List Retry.Event) (s : Steps P R)
      → ((e : Thrown) → length (select settles (handle e)) ≡ 1)
      → IsOneIfDone s
      → length (select settling (caught app broker handle s)) ≡ 1
  unfolding IsOneIfDone
  caught-settles handle (xs, none) h k = k
  caught-settles handle (xs, some e) h k =
      ap length (select-append_none settling xs (map called (handle e)) k)
      ∙ settling-called P R (handle e)
      ∙ h e

  retried :
      (queue : String) (policy : RetryPolicyConfig) (msg : Message) (e : Thrown)
      → length (select settles (on_error app broker queue (retrying policy) msg e)) ≡ 1
  unfolding on_error
  retried queue policy msg e = handle_error-settles app.to_number queue policy broker.takes msg e

  -- A consumer whose errors go to a retry policy settles each message exactly once, whatever the
  -- handler, the deserializer and the broker's replies and acks do, if the broker takes a nack.
  pub consumers-settle :
      (options : MessageHandlerOptions H) (config : ConnectionConfig H) (queue : String)
      (policy : RetryPolicyConfig) (msg : Message)
      → resolve_error_handler options config rpc ≡ retrying policy
      → resolve_error_handler options config subscribe ≡ retrying policy
      → (length (select settling (rpc_consumer app broker options config queue (some msg))) ≡ 1)
        × (length (select settling (subscriber_consumer app broker options config queue (some msg)))
            ≡ 1)
  unfolding rpc_consumer subscriber_consumer
  consumers-settle options config queue policy msg h k = (
    caught-settles (on_error app broker queue (resolve_error_handler options config rpc) msg)
        (rpc_body app broker options msg)
        (λ e.
          subst (λ r. length (select settles (on_error app broker queue r msg e)) ≡ 1) (sym h)
            (retried queue policy msg e))
        (rpc_body-settles options msg),
    caught-settles (on_error app broker queue (resolve_error_handler options config subscribe) msg)
        (subscriber_body app broker options msg)
        (λ e.
          subst (λ r. length (select settles (on_error app broker queue r msg e)) ≡ 1) (sym k)
            (retried queue policy msg e))
        (subscriber_body-settles options msg),
  )

module _ {H P R : Type 0} (app : Application H P R) (broker : Broker R) where
  quiet_call : (c : Retry.Call) (p : P) → In (handled p) (call app broker c).0 → ⊥
  quiet_call c p (inl e) = cc
  quiet_call c p (inr i) = i

  In-before : (s t : Steps P R) (x : Step P R) → In x (s before t).0 → In x s.0 ⊎ In x t.0
  In-before (xs, none) (ys, e) x i = In-append xs ys x i
  In-before (xs, some e) t x i = inl i

  reply_quiet :
      (to : Option String) (r : R) (p : P) → In (handled p) (reply_if app broker to r).0 → ⊥
  reply_quiet none r p i = i
  reply_quiet (some to) r p i = ground arith

  handled_by :
      (msg : Message) (t : Tried P) (respond : Tried (Response R) → Steps P R) (p : P)
      → ((o : Tried (Response R)) → In (handled p) (respond o).0 → ⊥)
      → In (handled p) (handle_with app broker msg respond t).0
      → t ≡ returned p
  handled_by msg (threw e) respond p q i = elim i [ ]
  handled_by msg (returned p') respond p q i =
      elim (In-before (handled p' ∷ [], none) (respond (app.handler p' msg)) (handled p) i) [
        | inl (inl e) ↦ cc
        | inl (inr j) ↦ elim j [ ]
        | inr j ↦ absurd (q (app.handler p' msg) j)
      ]

  respond_quiet :
      (msg : Message) (o : Tried (Response R)) (p : P)
      → In (handled p) (respond_rpc app broker msg o).0
      → ⊥
  respond_quiet msg (threw e) p i = i
  respond_quiet msg (returned (nack_response b)) p i = quiet_call (Retry.nack b) p i
  respond_quiet msg (returned (value r)) p i =
      elim (In-before (reply_if app broker msg.properties.reply_to r) (call app broker Retry.ack)
        (handled p) i) [
          | inl j ↦ reply_quiet msg.properties.reply_to r p j
          | inr j ↦ quiet_call Retry.ack p j
        ]

  errors_quiet : (es : List Retry.Event) (p : P) → In {A = Step P R} (handled p) (map called es) → ⊥
  errors_quiet [] p i = i
  errors_quiet (e ∷ es) p (inl h) = cc
  errors_quiet (e ∷ es) p (inr i) = errors_quiet es p i

  caught_quiet :
      (handle : Thrown → List Retry.Event) (s : Steps P R) (p : P)
      → In (handled p) (caught app broker handle s)
      → In (handled p) s.0
  caught_quiet handle (xs, none) p i = i
  caught_quiet handle (xs, some e) p i = elim (In-append xs (map called (handle e)) (handled p) i) [
    | inl j ↦ j
    | inr j ↦ absurd (errors_quiet (handle e) p j)
  ]

  -- The handler of an RPC consumer runs only on the payload read from a message whose routing key
  -- the subscription takes.
  pub rpc_consumer-handles :
      (options : MessageHandlerOptions H) (config : ConnectionConfig H) (queue : String)
      (msg : Message) (p : P)
      → In (handled p) (rpc_consumer app broker options config queue (some msg))
      → (matches_routing_key msg.routing_key options.routing_key ≡ true)
        × (try_deserialize_message app broker options msg ≡ returned p)
  unfolding rpc_consumer rpc_body
  rpc_consumer-handles options config queue msg p i =
      let handler = on_error app broker queue (resolve_error_handler options config rpc) msg in
      let j = caught_quiet handler (rpc_body app broker options msg) p i in
      elim (Bool-cases (matches_routing_key msg.routing_key options.routing_key)) [
        | inl matches ↦ (
          matches,
          handled_by msg (try_deserialize_message app broker options msg)
              (respond_rpc app broker msg) p (λ o. respond_quiet msg o p) (rw matches at j),
        )
        | inr misses ↦ absurd (quiet_call (Retry.nack false) p (rw misses at j))
      ]
