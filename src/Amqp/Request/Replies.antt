-- ===== src/Amqp/Request/Replies.antt =====
-- Which reply a request is resolved by.
use nestjs_amqp.Prelude.{
  ℕ, zero, suc, String, Bool, true, false, ◌&&◌, Option, none, some, List, [], ◌∷◌, ◌==◌, ◌≡◌, ◌⊎◌,
  inl, inr, refl, ap, ◌∙◌, subst, map, In, All, All-append, arith, eq_iff, Bool-cases,
}
use nestjs_amqp.Prelude.Result.{AppError, Result, ok, err}
use nestjs_amqp.Admin.Manifest.{Json}
use nestjs_amqp.Amqp.Request.{
  RawReply, CorrelationMessage, is_given, same_id, content_of, correlation_message,
  process_direct_reply, Answer, got, timed_out, Pending, answers, start, settled_as, first_answer,
  first_result, resolved_by, on_reply, timed, on_timeout, on_publish, at_place, Event, requests,
  replies, times_out, publishes, spread_reply, happen, run_events,
}

module _ (deserializer : String → Result Json) where
  -- a message of the stream, made of a reply among the events, passes the filter of the request
  abbrev IsAnswer : List Event → Pending → Option Json → Type 0
  IsAnswer es p message =
      (raw : Option RawReply) × (x : CorrelationMessage) × In (replies raw) es
      × (process_direct_reply deserializer raw ≡ some x)
      × (answers p x ≡ true)
      × (x.message ≡ message)

  -- What the request has got or was resolved with came in a reply of its own.
  abbrev IsHonest : List Event → Pending → Type 0
  IsHonest es p =
      ((message : Option Json) → p.answer ≡ some (got message) → IsAnswer es p message)
      × ((message : Option Json) → p.settled ≡ some (ok message) → IsAnswer es p message)

  resolved_by-got :
      (a : Option Answer) (message : Option Json)
      → resolved_by a ≡ some (ok message)
      → a ≡ some (got message)
  resolved_by-got none message e = absurd (cc)
  resolved_by-got (some (got m)) message e = cc
  resolved_by-got (some timed_out) message e = absurd (cc)

  settled_as-IsHonest :
      (es : List Event) (r : Option (Result (Option Json))) (b : Bool) (p : Pending)
      → IsHonest es p
      → IsHonest es (settled_as r b p)
  unfolding answers
  settled_as-IsHonest es (some r) b p h = h
  settled_as-IsHonest es none false p h = h
  settled_as-IsHonest es none true p (a, s) =
      (a, (λ message e. a message (resolved_by-got p.answer message e)))

  first_answer-got :
      (a : Option Answer) (b : Answer) (message : Option Json)
      → first_answer a b ≡ some (got message)
      → (a ≡ some (got message)) ⊎ (b ≡ got message)
  first_answer-got none b message e = inr (cc)
  first_answer-got (some a) b message e = inl e

  first_result-ok :
      (r : Option (Result (Option Json))) (e : AppError) (message : Option Json)
      → first_result r (err e) ≡ some (ok message)
      → r ≡ some (ok message)
  first_result-ok none e message h = absurd (cc)
  first_result-ok (some r) e message h = h

  answered-IsHonest :
      (es : List Event) (raw : Option RawReply) (x : CorrelationMessage) (p : Pending)
      → In (replies raw) es
      → process_direct_reply deserializer raw ≡ some x
      → answers p x ≡ true
      → IsHonest es p
      → IsHonest es (record p { answer = first_answer p.answer (got x.message) })
  unfolding answers
  answered-IsHonest es raw x p i made mine (a, s) = (
    (λ message e. elim (first_answer-got p.answer (got x.message) message e) [
      | inl before ↦ a message before
      | inr now ↦ (raw, x, i, made, mine, cc)
    ]),
    s,
  )

  on_reply-IsHonest :
      (es : List Event) (raw : Option RawReply) (x : CorrelationMessage) (p : Pending)
      → In (replies raw) es
      → process_direct_reply deserializer raw ≡ some x
      → IsHonest es p
      → IsHonest es (on_reply x p)
  unfolding on_reply answers
  on_reply-IsHonest es raw x p i made h = elim (Bool-cases (answers p x)) [
    | inl mine ↦ rw mine (
        settled_as-IsHonest es p.settled p.confirmed
          (record p { answer = first_answer p.answer (got x.message) })
          (answered-IsHonest es raw x p i made mine h))
    | inr other ↦ rw other h
  ]

  timed-IsHonest :
      (es : List Event) (a : Option Answer) (p : Pending) → IsHonest es p → IsHonest es (timed a p)
  unfolding answers
  timed-IsHonest es (some a) p h = h
  timed-IsHonest es none p (a, s) = (
    (λ message e. absurd (cc)),
    (λ message e. s message (first_result-ok p.settled p.overdue message e)),
  )

  on_publish-IsHonest :
      (es : List Event) (e : Option AppError) (p : Pending)
      → IsHonest es p
      → IsHonest es (on_publish e p)
  unfolding on_publish answers
  on_publish-IsHonest es none p h =
      settled_as-IsHonest es p.settled true (record p { confirmed = true }) h
  on_publish-IsHonest es (some e) p (a, s) =
      (a, (λ message h. s message (first_result-ok p.settled e message h)))

  at_place-All :
      (P : Pending → Type 0) (f : Pending → Pending)
      → ((p : Pending) → P p → P (f p))
      → (i : ℕ) (ps : List Pending) → All P ps
      → All P (at_place f i ps)
  at_place-All P f keep i [] h = tt
  at_place-All P f keep zero (p ∷ ps) (h, t) = (keep p h, t)
  at_place-All P f keep (suc i) (p ∷ ps) (h, t) = (h, at_place-All P f keep i ps t)

  map-All :
      (P : Pending → Type 0) (f : Pending → Pending)
      → ((p : Pending) → P p → P (f p))
      → (ps : List Pending) → All P ps
      → All P (map f ps)
  map-All P f keep [] h = tt
  map-All P f keep (p ∷ ps) (h, t) = (keep p h, map-All P f keep ps t)

  spread_reply-All :
      (es : List Event) (raw : Option RawReply) (o : Option CorrelationMessage) (ps : List Pending)
      → In (replies raw) es
      → process_direct_reply deserializer raw ≡ o
      → All (IsHonest es) ps
      → All (IsHonest es) (spread_reply o ps)
  spread_reply-All es raw none ps i made h = h
  spread_reply-All es raw (some x) ps i made h =
      map-All (IsHonest es) (on_reply x) (λ p. on_reply-IsHonest es raw x p i made) ps h

  happen-All :
      (es : List Event) (e : Event) (ps : List Pending)
      → In e es
      → All (IsHonest es) ps
      → All (IsHonest es) (happen deserializer e ps)
  unfolding happen start on_timeout
  happen-All es (requests id request overdue) ps i h =
      All-append (IsHonest es) ps (start id request overdue ∷ []) h
        (((λ message e. absurd (cc)), (λ message e. absurd (cc))), tt)
  happen-All es (replies raw) ps i h =
      spread_reply-All es raw (process_direct_reply deserializer raw) ps i refl h
  happen-All es (times_out n) ps i h =
      at_place-All (IsHonest es) on_timeout (λ p. timed-IsHonest es p.answer p) n ps h
  happen-All es (publishes n e) ps i h =
      at_place-All (IsHonest es) (on_publish e) (on_publish-IsHonest es e) n ps h

  run-All :
      (es rest : List Event) (ps : List Pending)
      → ((e : Event) → In e rest → In e es)
      → All (IsHonest es) ps
      → All (IsHonest es) (run_events deserializer rest ps)
  unfolding run_events
  run-All es [] ps among h = h
  run-All es (e ∷ rest) ps among h =
      run-All es rest (happen deserializer e ps) (λ d i. among d (inr i))
        (happen-All es e ps (among e (inl refl)) h)

  of_All : (P : Pending → Type 0) (ps : List Pending) (p : Pending) → All P ps → In p ps → P p
  of_All P [] p h i = elim i [ ]
  of_All P (q ∷ ps) p (h, t) (inl e) = subst P e h
  of_All P (q ∷ ps) p (h, t) (inr i) = of_All P ps p t i

  -- A raw reply among the events carries the ids of the request, and its content is the message.
  abbrev pub IsReply : List Event → Pending → Option Json → Type 0
  IsReply es p message =
      (raw : RawReply) × In (replies (some raw)) es
      × (raw.correlation_id ≡ some p.correlation_id)
      × (is_given p.request_id ≡ true → raw.request_id ≡ p.request_id)
      × (content_of deserializer raw.content ≡ ok message)

  made-of :
      (id : String) (request_id : Option String) (r : Result (Option Json)) (x : CorrelationMessage)
      → correlation_message id request_id r ≡ some x
      → (id ≡ x.correlation_id) × (request_id ≡ x.request_id) × (r ≡ ok x.message)
  made-of id request_id (err e) x h = absurd (cc)
  made-of id request_id (ok message) x h =
      let same : record { correlation_id = id; request_id = request_id; message = message } ≡ x =
        cc in
      (ap (λ y. y.correlation_id) same, ap (λ y. y.request_id) same, ap (λ y. ok y.message) same)

  sent-as :
      (raw : RawReply) (o : Option String) (x : CorrelationMessage)
      → raw.correlation_id ≡ o
      → process_direct_reply deserializer (some raw) ≡ some x
      → (raw.correlation_id ≡ some x.correlation_id)
        × (raw.request_id ≡ x.request_id)
        × (content_of deserializer raw.content ≡ ok x.message)
  unfolding process_direct_reply
  sent-as raw none x e h = let nothing : none ≡ some x = rw e at h in absurd (cc)
  sent-as raw (some id) x e h =
      let (i, r, c) =
        made-of id raw.request_id (content_of deserializer raw.content) x (rw e at h) in
      (e ∙ ap some i, r, c)

  same_id_sound : (a b : Option String) → same_id a b ≡ true → a ≡ b
  same_id_sound none b e = absurd (cc)
  same_id_sound (some a) none e = absurd (cc)
  same_id_sound (some a) (some b) e = ground (arith, e, eq_iff a b)

  answers-ids :
      (p : Pending) (x : CorrelationMessage)
      → answers p x ≡ true
      → (x.correlation_id ≡ p.correlation_id)
        × (is_given p.request_id ≡ true → x.request_id ≡ p.request_id)
  unfolding answers
  answers-ids p x e = elim (Bool-cases (is_given p.request_id)) [
    | inl g ↦
        (let ids : (x.correlation_id == p.correlation_id && same_id x.request_id p.request_id)
              ≡ true =
            rw g at e in
          (
            ground (arith, ids, eq_iff x.correlation_id p.correlation_id),
            (λ given. same_id_sound x.request_id p.request_id (ground (arith, ids))),
          ))
    | inr n ↦
        (let id : (x.correlation_id == p.correlation_id) ≡ true = rw n at e in
          (ground (arith, id, eq_iff x.correlation_id p.correlation_id), (λ given. absurd (cc))))
  ]

  IsAnswer-IsReply :
      (es : List Event) (raw : Option RawReply) (p : Pending) (x : CorrelationMessage)
      (message : Option Json)
      → In (replies raw) es
      → process_direct_reply deserializer raw ≡ some x
      → answers p x ≡ true
      → x.message ≡ message
      → IsReply es p message
  unfolding process_direct_reply
  IsAnswer-IsReply es none p x message i made mine e = absurd (cc)
  IsAnswer-IsReply es (some raw) p x message i made mine e =
      let (c, r, m) = sent-as raw raw.correlation_id x refl made in
      let (same, given) = answers-ids p x mine in
      (raw, i, c ∙ ap some same, (λ g. r ∙ given g), m ∙ ap ok e)

  -- Whatever requests, replies, timeouts and publish outcomes follow one another, a request that is
  -- resolved with a message is resolved by a reply among them: the reply has the correlation id of
  -- the request and, where the request has an X-Request-ID, that one too, and its content reads as
  -- the message.
  pub run_events-IsReply :
      (es : List Event) (p : Pending) (message : Option Json)
      → In p (run_events deserializer es [])
      → p.settled ≡ some (ok message)
      → IsReply es p message
  run_events-IsReply es p message i e =
      let honest =
        of_All (IsHonest es) (run_events deserializer es []) p (run-All es es [] (λ d j. j) tt) i in
      let (raw, x, there, made, mine, same) = honest.1 message e in
      IsAnswer-IsReply es raw p x message there made mine same
