-- ===== src/Amqp/Retry/Settle.antt =====
-- How a failed message is settled on its channel.
use nestjs_amqp.Prelude.{
  ℕ, String, Bool, true, false, Option, none, some, List, [], ◌∷◌, ◌++◌, ◌==◌, if◌then◌else◌, ltb,
  ◌≡◌, inl, inr, refl, ap, ◌∙◌, arith, Bool-cases, length, select, In, subst, select_of_In,
  In-append_left, In-append_right, In-append, select-append_none,
}
use nestjs_amqp.Amqp.Retry.{
  OnExhausted, dead_letter, drop, DeadLetter, RetryPolicyConfig, Message, Thrown, Call,
  assert_retry_wait_queue, ack, nack, Event, Run, attempt, ◌and_then◌, catching, quiet, delay_of,
  on_exhausted_of, wait_queue, attempts_of, schedule_retry, reply_error_to_rpc_caller,
  dead_letter_call, exhaust, retries, hand_over, handle_error, copy_call, reply_to_caller,
  exhaust_to,
}

-- the message left the channel: it was acked, or a requeue was asked for
unfoldable pub settles : Event → Bool
settles e = elim e.call [ ack ↦ e.succeeded | nack requeue ↦ true | _ ↦ false ]

abbrev pub accepted : Call → Event
accepted c = record { call = c; succeeded = true }

-- no event of the run settles the message
abbrev IsUnsettled : Run → Type 0
IsUnsettled r = select settles r.0 ≡ []

and_then-IsUnsettled : (r s : Run) → IsUnsettled r → IsUnsettled s → IsUnsettled (r and_then s)
and_then-IsUnsettled (es, true) (fs, b) h k = select-append_none settles es fs h ∙ k
and_then-IsUnsettled (es, false) s h k = h

module _ (to_number : String → Option ℕ) (queue : String) (policy : RetryPolicyConfig)
    (broker : Call → Bool) where
  attempt-IsUnsettled :
      (c : Call)
      → settles (accepted c) ≡ false
      → settles (record { call = c; succeeded = false }) ≡ false
      → IsUnsettled (attempt broker c)
  attempt-IsUnsettled c h k = elim (Bool-cases (broker c)) [
    | inl taken ↦ rw (taken, h) refl
    | inr refused ↦ rw (refused, k) refl
  ]

  schedule_retry-IsUnsettled :
      (msg : Message) (n : Option ℕ)
      → IsUnsettled (schedule_retry to_number queue policy broker msg n)
  unfolding schedule_retry settles
  schedule_retry-IsUnsettled msg n = ground arith

  reply-IsUnsettled :
      (msg : Message) (e : Thrown) (n : Option ℕ) (to id : Option String)
      → IsUnsettled (reply_to_caller to_number queue policy broker msg e n to id)
  unfolding settles
  reply-IsUnsettled msg e n none id = refl
  reply-IsUnsettled msg e n (some to) none = refl
  reply-IsUnsettled msg e n (some to) (some id) = ground arith

  exhaust-IsUnsettled :
      (msg : Message) (e : Thrown) (n : Option ℕ) (o : OnExhausted) (d : Option DeadLetter)
      → IsUnsettled (exhaust_to to_number queue policy broker msg e n o d)
  unfolding settles
  exhaust-IsUnsettled msg e n drop d = refl
  exhaust-IsUnsettled msg e n dead_letter none = refl
  exhaust-IsUnsettled msg e n dead_letter (some d) = ground arith

  hand_over-IsUnsettled :
      (msg : Message) (e : Thrown) → IsUnsettled (hand_over to_number queue policy broker msg e)
  unfolding hand_over reply_error_to_rpc_caller exhaust
  hand_over-IsUnsettled msg e =
      let n = attempts_of to_number queue policy broker msg in
      elim (Bool-cases (retries to_number queue policy broker msg e)) [
        | inl again ↦ rw again (schedule_retry-IsUnsettled msg n)
        | inr over ↦ rw over (
            and_then-IsUnsettled (reply_error_to_rpc_caller to_number queue policy broker msg e n)
              (exhaust to_number queue policy broker msg e n)
              (reply-IsUnsettled msg e n msg.properties.reply_to msg.properties.correlation_id)
              (exhaust-IsUnsettled msg e n (on_exhausted_of policy) policy.dead_letter))
      ]

  requeued : length (select settles (catching (attempt broker (nack true)) quiet).0) ≡ 1
  unfolding settles
  requeued = ground arith

  abbrev fallback : Run
  fallback = catching (attempt broker (nack true)) quiet

  after_ack :
      (es : List Event) (b : Bool)
      → select settles es ≡ []
      → length (
          select settles (catching (es ++ record { call = ack; succeeded = b } ∷ [], b) fallback).0)
        ≡ 1
  unfolding settles
  after_ack es true h = ap length (select-append_none settles es (accepted ack ∷ []) h)
  after_ack es false h =
      let refused : Event = record { call = ack; succeeded = false } in
      ap length (
        select-append_none settles (es ++ refused ∷ []) fallback.0
          (select-append_none settles es (refused ∷ []) h))
      ∙ requeued

  settled_once :
      (r : Run)
      → IsUnsettled r
      → length (select settles (catching (r and_then attempt broker ack) fallback).0) ≡ 1
  settled_once (es, true) h = after_ack es (broker ack) h
  settled_once (es, false) h = ap length (select-append_none settles es fallback.0 h) ∙ requeued

  -- Whatever the broker refuses, a failed message is settled exactly once: by an ack that went
  -- through, or by a nack with requeue.
  pub handle_error-settles :
      (msg : Message) (e : Thrown)
      → length (select settles (handle_error to_number queue policy broker msg e)) ≡ 1
  unfolding handle_error
  handle_error-settles msg e =
      settled_once (hand_over to_number queue policy broker msg e) (hand_over-IsUnsettled msg e)

  -- the copy of the message that the policy asks for
  abbrev dead_letter_copy :
      Message → Thrown → Option ℕ → OnExhausted → Option DeadLetter → Option Call
  dead_letter_copy msg e n drop d = none
  dead_letter_copy msg e n dead_letter none = none
  dead_letter_copy msg e n dead_letter (some d) =
      if d.exchange == ""
      then none
      else some (dead_letter_call to_number queue policy broker msg e n d)

  unfoldable pub owed_copy : Message → Thrown → Option Call
  owed_copy msg e =
      let n = attempts_of to_number queue policy broker msg in
      if retries to_number queue policy broker msg e
      then some (
          copy_call to_number queue policy broker msg n
            (if ltb 0 (delay_of policy) then wait_queue queue (delay_of policy) else queue))
      else dead_letter_copy msg e n (on_exhausted_of policy) policy.dead_letter

  accepted_of : (c : Call) → broker c ≡ true → In (accepted c) (attempt broker c).0
  accepted_of c h = inl (ap (λ b. record { call = c; succeeded = b }) h)

  -- a run that went through went through to the end
  and_then-ok :
      (r s : Run) (x : Event)
      → (r and_then s).1 ≡ true
      → (s.1 ≡ true → In x s.0)
      → In x (r and_then s).0
  and_then-ok (es, true) (fs, b) x h f = In-append_right es fs x (f h)
  and_then-ok (es, false) s x h f = absurd (cc)

  scheduled :
      (msg : Message) (n : Option ℕ)
      → (schedule_retry to_number queue policy broker msg n).1 ≡ true
      → In
          (accepted (
            copy_call to_number queue policy broker msg n
              (if ltb 0 (delay_of policy) then wait_queue queue (delay_of policy) else queue)))
          (schedule_retry to_number queue policy broker msg n).0
  unfolding schedule_retry
  scheduled msg n h = elim (Bool-cases (ltb 0 (delay_of policy))) [
    | inl waits ↦
        let waiting = wait_queue queue (delay_of policy) in
        let c = copy_call to_number queue policy broker msg n waiting in
        let declared = attempt broker (assert_retry_wait_queue waiting (delay_of policy) queue) in
        rw waits
          (and_then-ok declared (attempt broker c) (accepted c) (rw waits at h) (accepted_of c))
    | inr direct ↦
        rw direct
          (accepted_of (copy_call to_number queue policy broker msg n queue) (rw direct at h))
  ]

  dead_lettered :
      (msg : Message) (e : Thrown) (n : Option ℕ) (o : OnExhausted) (d : Option DeadLetter)
      (c : Call)
      → dead_letter_copy msg e n o d ≡ some c
      → (exhaust_to to_number queue policy broker msg e n o d).1 ≡ true
      → In (accepted c) (exhaust_to to_number queue policy broker msg e n o d).0
  dead_lettered msg e n drop d c h k = absurd (cc)
  dead_lettered msg e n dead_letter none c h k = absurd (cc)
  dead_lettered msg e n dead_letter (some d) c h k = elim (Bool-cases (d.exchange == "")) [
    | inl nowhere ↦ absurd (ground (arith, h, nowhere))
    | inr named ↦
        let call = dead_letter_call to_number queue policy broker msg e n d in
        let same : call ≡ c = ground (arith, h, named) in
        rw named (
          subst (λ c. In (accepted c) (attempt broker call).0) same
            (accepted_of call (rw named at k)))
  ]

  owed-accepted :
      (msg : Message) (e : Thrown) (c : Call)
      → owed_copy msg e ≡ some c
      → (hand_over to_number queue policy broker msg e).1 ≡ true
      → In (accepted c) (hand_over to_number queue policy broker msg e).0
  unfolding hand_over owed_copy exhaust
  owed-accepted msg e c o h =
      let n = attempts_of to_number queue policy broker msg in
      elim (Bool-cases (retries to_number queue policy broker msg e)) [
        | inl again ↦ rw again (
            subst (λ c. In (accepted c) (schedule_retry to_number queue policy broker msg n).0)
              (some-injective (rw again at o)) (scheduled msg n (rw again at h)))
        | inr over ↦ rw over (
            and_then-ok (reply_error_to_rpc_caller to_number queue policy broker msg e n)
              (exhaust to_number queue policy broker msg e n) (accepted c) (rw over at h)
              (dead_lettered msg e n (on_exhausted_of policy) policy.dead_letter c (rw over at o)))
      ]
    where
      some-injective : {x y : Call} → some x ≡ some y → x ≡ y
      some-injective h = cc

  In-catching : (r s t : Run) (x : Event) → In x r.0 → In x (catching (r and_then s) t).0
  In-catching (es, false) s (gs, b) x i = In-append_left es gs x i
  In-catching (es, true) (fs, true) t x i = In-append_left es fs x i
  In-catching (es, true) (fs, false) (gs, b) x i =
      In-append_left (es ++ fs) gs x (In-append_left es fs x i)

  -- an ack that went through was asked for by a run that went through
  acked-ok :
      (r : Run)
      → IsUnsettled r
      → In (accepted ack) (catching (r and_then attempt broker ack) fallback).0
      → r.1 ≡ true
  unfolding settles
  acked-ok (es, true) h i = refl
  acked-ok (es, false) h i = elim (In-append es fallback.0 (accepted ack) i) [
    | inl early ↦
        absurd (
          nothing (subst (In (accepted ack)) h (select_of_In settles es (accepted ack) early refl)))
    | inr late ↦ absurd (not_requeue late)
  ]
    where
      nothing : In (accepted ack) [] → ⊥
      nothing i = i

      not_requeue : In (accepted ack) fallback.0 → ⊥
      not_requeue i = ground arith

  -- A message is acked only after the copy that the policy asks for was accepted.
  pub handle_error-copy :
      (msg : Message) (e : Thrown) (c : Call)
      → In (accepted ack) (handle_error to_number queue policy broker msg e)
      → owed_copy msg e ≡ some c
      → In (accepted c) (handle_error to_number queue policy broker msg e)
  unfolding handle_error
  handle_error-copy msg e c i o =
      let r = hand_over to_number queue policy broker msg e in
      In-catching r (attempt broker ack) fallback (accepted c)
        (owed-accepted msg e c o (acked-ok r (hand_over-IsUnsettled msg e) i))
