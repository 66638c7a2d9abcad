-- ===== src/Broker/Service/Silence.antt =====
-- The service after `unregisterAll`.
use nestjs_amqp.Prelude.{
  ℕ, String, Bool, true, false, Option, none, some, List, [], ◌∷◌, ◌++◌, ◌==◌, ◌≡◌, refl, ◌∙◌,
  if◌then◌else◌, All, All-append, arith,
}
use nestjs_amqp.Prelude.Result.{Result, ok, err}
use nestjs_amqp.JsMap.{get}
use nestjs_amqp.Admin.Manifest.{Json}
use nestjs_amqp.Broker.Registry.{Handler, register, rpc}
use nestjs_amqp.Broker.Topics.{Topic, QueueConfig, BrokerConfig, Entry, queue_named}
use nestjs_amqp.Broker.Service.{
  Out, publishes, requests, subscribes, responds, cancels, Connection, Service, publish_message,
  request_data, register_handler, register_rpc, unregister_all, handle_on, keep_handler,
  subscribed_handler, with_registered, subscribed_rpc, subscribe_rpc, rpc_with_queue, rpc_on,
  topic_named, resolved,
}

-- A call that sends no message of the application.
abbrev pub IsInward : Out → Type 0
IsInward (publishes route action payload) = ⊥
IsInward (requests route action payload reply_to timeout) = ⊥
IsInward (subscribes queue exchange key b) = Unit
IsInward (responds queue exchange key) = Unit
IsInward cancels = Unit

pub data Op : Type 0 where
  publish : String → String → Json → Op
  request : String → String → Json → Option ℕ → Op
  handles : String → Option Handler → Op
  serves : String → Handler → Op
  unregisters : Op

module _ (config : BrokerConfig) (topics : List Topic) (c : Connection) where
  -- the state and the calls of an operation
  abbrev pub step : Op → Service → Service × List Out
  step (publish topic action payload) st =
      (st, (publish_message config topics c topic action payload st).1)
  step (request topic action payload timeout) st =
      (st, (request_data config topics c topic action payload timeout st).1)
  step (handles topic handler) st =
      let ((r, st'), outs) = register_handler config topics c topic handler st in (st', outs)
  step (serves topic handler) st =
      let ((r, st'), outs) = register_rpc config topics c topic handler st in (st', outs)
  step unregisters st = unregister_all config topics c st

  abbrev pub run : List Op → Service → Service × List Out
  run [] st = (st, [])
  run (op ∷ ops) st =
      let (st', outs) = step op st in let (st'', more) = run ops st' in (st'', outs ++ more)

  -- An outcome that keeps the latch and sends nothing.
  abbrev IsQuiet : Service → (Result (Unit {0}) × Service) × List Out → Type 0
  IsQuiet st r = (r.0.1.detached ≡ st.detached) × All IsInward r.1

  if-IsQuiet :
      (b : Bool) (x y : (Result (Unit {0}) × Service) × List Out) (st : Service)
      → IsQuiet st x
      → IsQuiet st y
      → IsQuiet st (if b then x else y)
  if-IsQuiet true x y st p q = p
  if-IsQuiet false x y st p q = q

  keep_handler-detached :
      (t : Topic) (handler : Option Handler) (st : Service)
      → (keep_handler config topics c t handler st).1.detached ≡ st.detached
  keep_handler-detached t none st = ground arith
  keep_handler-detached t (some h) st = ground arith

  subscribed_handler-detached :
      (r : Result String) (q : Entry) (name : String) (st : Service)
      → (subscribed_handler config topics c r q name st).detached ≡ st.detached
  subscribed_handler-detached (ok tag) q name st = refl
  subscribed_handler-detached (err e) q name st = refl

  handle_on-IsQuiet :
      (q : Option Entry) (t : Option Topic) (handler : Option Handler) (st : Service)
      → IsQuiet st (handle_on config topics c q t handler st)
  handle_on-IsQuiet none t handler st = (refl, tt)
  handle_on-IsQuiet (some q) none handler st = (refl, tt)
  handle_on-IsQuiet (some q) (some t) handler st =
      let out = subscribes q.queue q.exchange q.routing_key (t.mode == "broadcast") in
      let st' = subscribed_handler config topics c (c.consume out) q t.name st in
      if-IsQuiet q.subscribed ((ok tt, st), [])
        (keep_handler config topics c t handler st', out ∷ []) st (refl, tt)
        (
          keep_handler-detached t handler st'
              ∙ subscribed_handler-detached (c.consume out) q t.name st,
          (tt, tt),
        )

  subscribed_rpc-IsQuiet :
      (r : Result String) (q : Entry) (topic : String) (handler : Handler) (st : Service)
      → IsQuiet st (
          subscribed_rpc config topics c r
            (responds q.queue q.exchange q.routing_key)
            q
            topic
            handler
            st)
  subscribed_rpc-IsQuiet (ok tag) q topic handler st = (refl, (tt, tt))
  subscribed_rpc-IsQuiet (err e) q topic handler st = (refl, (tt, tt))

  subscribe_rpc-IsQuiet :
      (q : Entry) (topic : String) (handler : Handler) (st : Service)
      → IsQuiet st (subscribe_rpc config topics c q topic handler st)
  subscribe_rpc-IsQuiet q topic handler st =
      subscribed_rpc-IsQuiet (c.consume (responds q.queue q.exchange q.routing_key)) q topic handler
        st

  rpc_with_queue-IsQuiet :
      (queue : Option QueueConfig) (q : Entry) (topic : String) (handler : Handler) (st : Service)
      → IsQuiet st (rpc_with_queue config topics c queue q topic handler st)
  rpc_with_queue-IsQuiet none q topic handler st = (refl, tt)
  rpc_with_queue-IsQuiet (some queue) q topic handler st =
      subscribe_rpc-IsQuiet (resolved config topics c queue q) topic handler st

  rpc_at-IsQuiet :
      (name : Option String) (q : Entry) (topic : String) (handler : Handler) (st : Service)
      → IsQuiet st (elim name [
        | none ↦ subscribe_rpc config topics c q topic handler st
        | some n ↦ rpc_with_queue config topics c (queue_named config (some n)) q topic handler st
      ])
  rpc_at-IsQuiet none q topic handler st = subscribe_rpc-IsQuiet q topic handler st
  rpc_at-IsQuiet (some n) q topic handler st =
      rpc_with_queue-IsQuiet (queue_named config (some n)) q topic handler st

  rpc_on-IsQuiet :
      (q : Option Entry) (topic : String) (handler : Handler) (st : Service)
      → IsQuiet st (rpc_on config topics c q topic handler st)
  rpc_on-IsQuiet none topic handler st = (refl, tt)
  rpc_on-IsQuiet (some q) topic handler st =
      if-IsQuiet q.subscribed
        (with_registered config topics c (register rpc topic handler st.registry) st, []) _ st
        (refl, tt) (rpc_at-IsQuiet q.queue q topic handler st)

  -- the latch is on, and the calls are inward
  abbrev IsSilent : Service × List Out → Type 0
  IsSilent r = (r.0.detached ≡ true) × All IsInward r.1

  step-IsSilent : (op : Op) (st : Service) → st.detached ≡ true → IsSilent (step op st)
  unfolding publish_message request_data register_handler register_rpc unregister_all
  step-IsSilent (publish topic action payload) st h = (h, ground (arith, h))
  step-IsSilent (request topic action payload timeout) st h = (h, ground (arith, h))
  step-IsSilent (handles topic handler) st h =
      let (d, q) =
        handle_on-IsQuiet (get st.pools.handlers topic) (topic_named topics topic) handler st in
      (d ∙ h, q)
  step-IsSilent (serves topic handler) st h =
      let (d, q) = rpc_on-IsQuiet (get st.pools.rpcs topic) topic handler st in (d ∙ h, q)
  step-IsSilent unregisters st h = (refl, (tt, tt))

  run-IsSilent : (ops : List Op) (st : Service) → st.detached ≡ true → IsSilent (run ops st)
  run-IsSilent [] st h = (h, tt)
  run-IsSilent (op ∷ ops) st h =
      let (d, q) = step-IsSilent op st h in
      let (d', q') = run-IsSilent ops (step op st).0 d in
      (d', All-append IsInward (step op st).1 (run ops (step op st).0).1 q q')

  -- After `unregisterAll`, whatever operations follow, registrations included, no message is published
  -- and no request is sent, and the lock stays on.
  pub unregister_all-IsSilent :
      (ops : List Op) (st : Service)
      → ((run ops (unregister_all config topics c st).0).0.detached ≡ true)
        × All IsInward (run ops (unregister_all config topics c st).0).1
  unfolding unregister_all
  unregister_all-IsSilent ops st = run-IsSilent ops (unregister_all config topics c st).0 refl
