-- ===== src/Proxy/Gateway/Answer.antt =====
-- How often a request is answered.
use nestjs_amqp.Prelude.{
  ℕ, zero, suc, Bool, true, false, ◌&&◌, not, Option, none, some, List, [], ◌∷◌, ◌==◌, ◌≡◌, ◌≢◌,
  ◌⊎◌, inl, inr, refl, sym, ap, ◌∙◌, subst, if◌then◌else◌, In, String, arith,
}
use nestjs_amqp.Prelude.Result.{Result, ok, err}
use nestjs_amqp.JsMap.{JsMap, get}
use nestjs_amqp.Admin.Manifest.{Json, truthy}
use nestjs_amqp.Proxy.Provider.{Providers, given}
use nestjs_amqp.Proxy.Auth.{
  Request, PathDefinition, ProcessedAuthData, process_auth_data, check_actions,
  extract_resource_context,
}
use nestjs_amqp.Proxy.Gateway.Body.{data_of, full_data, encode_files, encode_found}
use nestjs_amqp.Proxy.Gateway.{
  Outside, Call, Effect, published, requested, answered, Run, Failure, call_of, forward_call,
  dispatch, deliver, authorize, after_acl, after_parse, after_auth, handle, wrote, send, report,
  responded, Attempt, run_of, preceded, and_logged, logged, is_sent, second_try, conclude, nothing,
  thrown, thrown_text, envelope, ErrorBody, send_error, after_publish, after_request, refuse,
  Response, ended, status_or, reply, rejects,
}

-- the number of responses
abbrev pub answers_in : List Effect → ℕ
answers_in [] = zero
answers_in (published c ∷ es) = answers_in es
answers_in (requested c ∷ es) = answers_in es
answers_in (answered r ∷ es) = suc (answers_in es)

sent_of_answer : (es : List Effect) → answers_in es ≡ 1 → is_sent es ≡ true
sent_of_answer [] h = absurd (ground (arith, h))
sent_of_answer (published c ∷ es) h = sent_of_answer es h
sent_of_answer (requested c ∷ es) h = sent_of_answer es h
sent_of_answer (answered r ∷ es) h = refl

module _ (o : Outside) where
  -- A call among the effects fails with nothing, or Express refuses a response with nothing.
  abbrev pub IsBare : List Effect → Type 0
  IsBare es =
      ((c : Call) × In (published c) es × (o.publish_message c ≡ some nothing))
      ⊎ (((c : Call) × In (requested c) es × (o.request_data c ≡ inl nothing))
          ⊎ ((r : Response) × (o.accepts r ≡ some nothing)))

  -- One response, and no rejection but after a bare failure.
  abbrev IsAnswered : Run → Type 0
  IsAnswered run = (answers_in run.effects ≡ 1) × ((run.rejected ≡ false) ⊎ IsBare run.effects)

  -- Express takes every error envelope.
  abbrev pub TakesErrors : Type 0
  TakesErrors = (b : ErrorBody) → o.accepts (envelope b) ≡ none

  module _ (takes : TakesErrors) where
    send-wrote :
        (status : Option ℕ) (e : Failure)
        → send o status e ≡ (answered (envelope (send_error o.production e status)) ∷ [], none)
    send-wrote status e =
        ap (λ t. wrote o t (envelope (send_error o.production e status)))
          (takes (send_error o.production e status))

    run_of-IsAnswered : (status : Option ℕ) (e : Failure) → IsAnswered (run_of (send o status e))
    run_of-IsAnswered status e =
        subst (λ a. IsAnswered (run_of a)) (sym (send-wrote status e)) (refl, inl refl)

    -- An attempt that has sent its response, and threw nothing but after a bare failure.
    abbrev IsTried : Attempt → Type 0
    IsTried a = (answers_in a.0 ≡ 1) × ((a.1 ≡ none) ⊎ IsBare a.0)

    logged-nothing : (e : Failure) → (logged e ≡ none) ⊎ (e ≡ nothing)
    logged-nothing (thrown name message details stack) = inl refl
    logged-nothing (thrown_text s) = inl refl
    logged-nothing nothing = inr refl

    report-tried :
        (status : Option ℕ) (e : Failure)
        → (answers_in (report o status e).0 ≡ 1) × (((report o status e).1 ≡ none) ⊎ (e ≡ nothing))
    report-tried status e =
        subst
          (λ a. (answers_in (and_logged a e).0 ≡ 1) × (((and_logged a e).1 ≡ none) ⊎ (e ≡ nothing)))
          (sym (send-wrote status e)) (refl, logged-nothing e)

    responded-tried :
        (t : Option Failure) (status : Option ℕ) (r : Response)
        → o.accepts r ≡ t
        → (answers_in (responded o t status r).0 ≡ 1)
          × (((responded o t status r).1 ≡ none) ⊎ (o.accepts r ≡ some nothing))
    responded-tried none status r h = (refl, inl refl)
    responded-tried (some e) status r h =
        let (one, end) = report-tried status e in
        (one, elim end [ inl q ↦ inl q | inr q ↦ inr (h ∙ ap some q) ])

    published-IsTried :
        (c : Call) (t : Option Failure) (path : PathDefinition)
        → o.publish_message c ≡ t
        → IsTried (preceded (published c ∷ []) (after_publish o t path))
    published-IsTried c none path h =
        let r = ended (status_or path.success_status_code 202) path.headers in
        let (one, end) = responded-tried (o.accepts r) (some 503) r refl in
        (one, elim end [ inl q ↦ inl q | inr q ↦ inr (inr (inr (r, q))) ])
    published-IsTried c (some e) path h =
        let (one, end) = report-tried (some 503) e in
        (one, elim end [ inl q ↦ inl q | inr q ↦ inr (inl (c, inl refl, h ∙ ap some q)) ])

    requested-IsTried :
        (c : Call) (t : Failure ⊎ Option Json) (path : PathDefinition)
        → o.request_data c ≡ t
        → IsTried (preceded (requested c ∷ []) (after_request o t path))
    requested-IsTried c (inl e) path h =
        let (one, end) = report-tried none e in
        (one, elim end [ inl q ↦ inl q | inr q ↦ inr (inr (inl (c, inl refl, h ∙ ap inl q))) ])
    requested-IsTried c (inr resp) path h =
        let r = reply o path resp in
        let (one, end) = responded-tried (o.accepts r) none r refl in
        (one, elim end [ inl q ↦ inl q | inr q ↦ inr (inr (inr (r, q))) ])

    second_try-answered :
        (t : Option Failure) (b : Bool) (es : List Effect) (e : Failure)
        → b ≡ true
        → (second_try o t b es e).effects ≡ es
    second_try-answered (some f) b es e h = refl
    second_try-answered none true es e h = refl
    second_try-answered none false es e h = absurd (cc)

    conclude-IsAnswered : (a : Attempt) → IsTried a → IsAnswered (conclude o a)
    conclude-IsAnswered (es, none) (one, end) = (one, inl refl)
    conclude-IsAnswered (es, some e) (one, inl h) = absurd (cc)
    conclude-IsAnswered (es, some e) (one, inr bare) =
        let same : (second_try o (logged e) (is_sent es) es e).effects ≡ es =
          second_try-answered (logged e) (is_sent es) es e (sent_of_answer es one) in
        (ap answers_in same ∙ one, inr (subst IsBare (sym same) bare))

    -- an error with a name that was thrown before any response gets its envelope from the outer catch
    invalid-IsAnswered :
        (name message : String)
        → IsAnswered (conclude o ([], some (thrown (some name) (some message) none none)))
    invalid-IsAnswered name message = run_of-IsAnswered none _

    pick-IsAnswered :
        (b : Bool) (x y : Attempt)
        → IsAnswered (conclude o x)
        → IsAnswered (conclude o y)
        → IsAnswered (conclude o (if b then x else y))
    pick-IsAnswered true x y p q = p
    pick-IsAnswered false x y p q = q

    forward_call-IsAnswered :
        (path : PathDefinition) (c : Call) → IsAnswered (conclude o (forward_call o path c))
    unfolding forward_call
    forward_call-IsAnswered path c =
        pick-IsAnswered (path.mode == "event") _ _
          (conclude-IsAnswered _ (published-IsTried c (o.publish_message c) path refl))
          (pick-IsAnswered (path.mode == "rpc") _ _
            (conclude-IsAnswered _ (requested-IsTried c (o.request_data c) path refl))
            (invalid-IsAnswered "Error" _))

    deliver-IsAnswered :
        (d : Option (JsMap Json)) (req : Request) (path : PathDefinition) (auth : ProcessedAuthData)
        → d ≢ none
        → IsAnswered (deliver o d req path auth)
    deliver-IsAnswered none req path auth n = absurd (n refl)
    deliver-IsAnswered (some payload) req path auth n =
        forward_call-IsAnswered path (call_of o req path auth payload)

    dispatch-IsAnswered :
        (req : Request) (path : PathDefinition) (auth : ProcessedAuthData)
        → data_of o.to_binary req path ≢ none
        → IsAnswered (dispatch o req path auth)
    unfolding dispatch
    dispatch-IsAnswered req path auth n =
        deliver-IsAnswered (data_of o.to_binary req path) req path auth n

    after_acl-IsAnswered :
        (r : Result Bool) (req : Request) (path : PathDefinition) (auth : ProcessedAuthData)
        → data_of o.to_binary req path ≢ none
        → IsAnswered (after_acl o r req path auth)
    after_acl-IsAnswered (err e) req path auth n = run_of-IsAnswered _ _
    after_acl-IsAnswered (ok false) req path auth n = run_of-IsAnswered _ _
    after_acl-IsAnswered (ok true) req path auth n = dispatch-IsAnswered req path auth n

    either-IsAnswered :
        (b : Bool) (x y : Run) → IsAnswered x → IsAnswered y → IsAnswered (if b then x else y)
    either-IsAnswered true x y p q = p
    either-IsAnswered false x y p q = q

    authorize-IsAnswered :
        (req : Request) (path : PathDefinition) (st : Providers) (auth : ProcessedAuthData)
        → data_of o.to_binary req path ≢ none
        → IsAnswered (authorize o req path st auth)
    unfolding authorize
    authorize-IsAnswered req path st auth n =
        let ctx = some (extract_resource_context req) in
        let decision = check_actions o.acl st auth path ctx in
        either-IsAnswered path.allow_anonymous (dispatch o req path auth)
          (after_acl o decision req path auth) (dispatch-IsAnswered req path auth n)
          (after_acl-IsAnswered decision req path auth n)

    after_parse-IsAnswered :
        (r : Failure ⊎ Request) (path : PathDefinition) (st : Providers) (auth : ProcessedAuthData)
        → ((req : Request) → r ≡ inr req → data_of o.to_binary req path ≢ none)
        → IsAnswered (after_parse o r path st auth)
    after_parse-IsAnswered (inl e) path st auth n = run_of-IsAnswered _ e
    after_parse-IsAnswered (inr req) path st auth n =
        authorize-IsAnswered req path st auth (n req refl)

    after_auth-IsAnswered :
        (r : Result ProcessedAuthData) (a : ProcessedAuthData) (req : Request)
        (path : PathDefinition) (st : Providers)
        → r ≡ ok a
        → ((req' : Request)
            → o.parse_multipart req ≡ inr req'
            → data_of o.to_binary req' path ≢ none)
        → IsAnswered (after_auth o r req path st)
    after_auth-IsAnswered (err e) a req path st q n = absurd (cc)
    after_auth-IsAnswered (ok auth) a req path st q n =
        either-IsAnswered
          (not path.allow_anonymous && given path.auth && not (truthy (get auth "success")))
          (refuse o "Unauthorized" "Unauthorized" 401)
          (after_parse o (o.parse_multipart req) path st auth) (run_of-IsAnswered _ _)
          (after_parse-IsAnswered (o.parse_multipart req) path st auth n)

    -- Where Express takes every error envelope, a request whose claims can be mapped, and whose files
    -- can be encoded once it is parsed, gets exactly one response, whatever the broker and the ACL
    -- service do and whichever other responses Express refuses. The handler's promise is then rejected
    -- only if one of its calls of the broker failed with no error at all, or if there is a response
    -- that Express refuses with none.
    pub handle-IsAnswered :
        (req : Request) (path : PathDefinition) (st : Providers) (a : ProcessedAuthData)
        → (process_auth_data o.platform req path st).0 ≡ ok a
        → ((req' : Request)
            → o.parse_multipart req ≡ inr req'
            → data_of o.to_binary req' path ≢ none)
        → (answers_in (handle o req path st).0.effects ≡ 1)
          × (((handle o req path st).0.rejected ≡ false) ⊎ IsBare (handle o req path st).0.effects)
    unfolding handle
    handle-IsAnswered req path st a q n =
        after_auth-IsAnswered (process_auth_data o.platform req path st).0 a req path st q n

  data_of-none :
      (req : Request) (path : PathDefinition) (files : Json)
      → get (full_data req path) "$files" ≡ some files
      → truthy (some files) ≡ true
      → encode_files o.to_binary files ≡ none
      → data_of o.to_binary req path ≡ none
  unfolding data_of
  data_of-none req path files h t e =
      ap (λ f. encode_found o.to_binary f (full_data req path)) h ∙ ground (arith, t, e)

  dispatch-rejects :
      (req : Request) (path : PathDefinition) (auth : ProcessedAuthData)
      → data_of o.to_binary req path ≡ none
      → dispatch o req path auth ≡ rejects
  unfolding dispatch
  dispatch-rejects req path auth h = ap (λ d. deliver o d req path auth) h

  after_parse-rejects :
      (r : Failure ⊎ Request) (req : Request) (path : PathDefinition) (st : Providers)
      (auth : ProcessedAuthData)
      → r ≡ inr req
      → path.allow_anonymous ≡ true
      → data_of o.to_binary req path ≡ none
      → after_parse o r path st auth ≡ rejects
  unfolding authorize
  after_parse-rejects (inl e) req path st auth q p d = absurd (cc)
  after_parse-rejects (inr req') req path st auth q p d =
      let e : req' ≡ req = cc in
      ground (
        arith,
        p,
        dispatch-rejects req' path auth (subst (λ r. data_of o.to_binary r path ≡ none) (sym e) d),
      )

  after_auth-rejects :
      (r : Result ProcessedAuthData) (req req' : Request) (path : PathDefinition) (st : Providers)
      → o.parse_multipart req ≡ inr req'
      → path.allow_anonymous ≡ true
      → data_of o.to_binary req' path ≡ none
      → after_auth o r req path st ≡ rejects
  after_auth-rejects (err e) req req' path st q p d = refl
  after_auth-rejects (ok auth) req req' path st q p d =
      ground (arith, p, after_parse-rejects (o.parse_multipart req) req' path st auth q p d)

  -- On a public route a request with a `$files` of its own, say a number in its JSON body, that the
  -- loop over the uploaded files cannot encode gets no response at all from the handler, and the
  -- broker is not called: the handler's promise is rejected.
  pub handle-rejects :
      (req req' : Request) (path : PathDefinition) (st : Providers) (files : Json)
      → o.parse_multipart req ≡ inr req'
      → path.allow_anonymous ≡ true
      → get (full_data req' path) "$files" ≡ some files
      → truthy (some files) ≡ true
      → encode_files o.to_binary files ≡ none
      → (handle o req path st).0 ≡ rejects
  unfolding handle
  handle-rejects req req' path st files q p h t e =
      after_auth-rejects (process_auth_data o.platform req path st).0 req req' path st q p
        (data_of-none req' path files h t e)
