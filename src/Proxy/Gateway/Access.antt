-- ===== src/Proxy/Gateway/Access.antt =====
-- What a request has passed when the broker gets a call for it.
use nestjs_amqp.Prelude.{
  Bool, true, false, ◌&&◌, not, Option, none, some, List, [], ◌∷◌, ◌==◌, ◌≡◌, ◌⊎◌, inl, inr, refl,
  subst, sym, ap, ◌∙◌, ◌++◌, if◌then◌else◌, arith, Bool-cases, ℕ, In,
}
use nestjs_amqp.Prelude.Result.{Result, ok, err}
use nestjs_amqp.JsMap.{JsMap, get}
use nestjs_amqp.Admin.Manifest.{Json, truthy}
use nestjs_amqp.Proxy.Provider.{Providers, given}
use nestjs_amqp.Proxy.Auth.{
  Request, PathDefinition, ProcessedAuthData, process_auth_data, check_actions,
  extract_resource_context, ResourceContext,
}
use nestjs_amqp.Proxy.Auth.Gate.{IsAuthorized, check_actions-IsAuthorized}
use nestjs_amqp.Proxy.Auth.Identity.{IsAuthenticated, process_auth_data-IsAuthenticated}
use nestjs_amqp.Proxy.Gateway.Body.{data_of}
use nestjs_amqp.Proxy.Gateway.{
  Outside, Call, Effect, published, requested, answered, Run, Failure, call_of, forward_call,
  dispatch, deliver, authorize, after_acl, after_parse, after_auth, handle, wrote, send, report,
  responded, Attempt, run_of, preceded, and_logged, logged, is_sent, second_try, conclude,
  after_publish, after_request, refuse, Response,
}

-- the calls of the broker
abbrev pub calls_in : List Effect → List Call
calls_in [] = []
calls_in (published c ∷ es) = c ∷ calls_in es
calls_in (requested c ∷ es) = c ∷ calls_in es
calls_in (answered r ∷ es) = calls_in es

module _ (o : Outside) where
  calls-wrote : (t : Option Failure) (r : Response) → calls_in (wrote o t r).0 ≡ []
  calls-wrote none r = refl
  calls-wrote (some e) r = refl

  calls-logged : (a : Attempt) (e : Failure) → calls_in a.0 ≡ [] → calls_in (and_logged a e).0 ≡ []
  calls-logged (es, none) e h = h
  calls-logged (es, some f) e h = h

  calls-report : (status : Option ℕ) (e : Failure) → calls_in (report o status e).0 ≡ []
  calls-report status e = calls-logged (send o status e) e (calls-wrote _ _)

  calls-responded :
      (t : Option Failure) (status : Option ℕ) (r : Response)
      → calls_in (responded o t status r).0 ≡ []
  calls-responded none status r = refl
  calls-responded (some e) status r = calls-report status e

  calls-after_publish :
      (r : Option Failure) (path : PathDefinition) → calls_in (after_publish o r path).0 ≡ []
  calls-after_publish none path = calls-responded _ (some 503) _
  calls-after_publish (some e) path = calls-report (some 503) e

  calls-after_request :
      (r : Failure ⊎ Option Json) (path : PathDefinition) → calls_in (after_request o r path).0 ≡ []
  calls-after_request (inl e) path = calls-report none e
  calls-after_request (inr resp) path = calls-responded _ none _

  In-pick :
      (b : Bool) (x y : Attempt) (call : Call)
      → In call (calls_in (if b then x else y).0)
      → In call (calls_in x.0) ⊎ In call (calls_in y.0)
  In-pick true x y call h = inl h
  In-pick false x y call h = inr h

  In-after_call :
      (c call : Call) (a : Attempt) → calls_in a.0 ≡ [] → In call (c ∷ calls_in a.0) → call ≡ c
  In-after_call c call a h (inl e) = sym e
  In-after_call c call a h (inr i) = absurd (subst (In call) h i)

  In-forward_call :
      (path : PathDefinition) (c call : Call)
      → In call (calls_in (forward_call o path c).0)
      → call ≡ c
  unfolding forward_call
  In-forward_call path c call h = elim (In-pick (path.mode == "event") _ _ call h) [
    | inl i ↦
        In-after_call c call (after_publish o (o.publish_message c) path)
          (calls-after_publish (o.publish_message c) path) i
    | inr j ↦ elim (In-pick (path.mode == "rpc") _ _ call j) [
      | inl i ↦
          In-after_call c call (after_request o (o.request_data c) path)
            (calls-after_request (o.request_data c) path) i
      | inr i ↦ absurd i
    ]
  ]

  calls-run_of : (a : Attempt) → calls_in (run_of a).effects ≡ calls_in a.0
  calls-run_of (es, none) = refl
  calls-run_of (es, some e) = refl

  calls-append : (es es' : List Effect) → calls_in es' ≡ [] → calls_in (es ++ es') ≡ calls_in es
  calls-append [] es' h = h
  calls-append (published c ∷ es) es' h = ap (λ cs. c ∷ cs) (calls-append es es' h)
  calls-append (requested c ∷ es) es' h = ap (λ cs. c ∷ cs) (calls-append es es' h)
  calls-append (answered r ∷ es) es' h = calls-append es es' h

  calls-second_try :
      (t : Option Failure) (b : Bool) (es : List Effect) (e : Failure)
      → calls_in (second_try o t b es e).effects ≡ calls_in es
  calls-second_try (some f) b es e = refl
  calls-second_try none true es e = refl
  calls-second_try none false es e =
      calls-run_of (preceded es (send o none e))
      ∙ calls-append es (send o none e).0 (calls-wrote _ _)

  calls-conclude : (a : Attempt) → calls_in (conclude o a).effects ≡ calls_in a.0
  calls-conclude (es, none) = refl
  calls-conclude (es, some e) = calls-second_try (logged e) (is_sent es) es e

  -- a run that is over with its error envelope makes no call
  calls-send : (status : Option ℕ) (e : Failure) → calls_in (run_of (send o status e)).effects ≡ []
  calls-send status e = calls-run_of (send o status e) ∙ calls-wrote _ _

  abbrev IsSent : Call → Request → PathDefinition → ProcessedAuthData → Type 0
  IsSent call req path auth =
      (payload : JsMap Json) × (data_of o.to_binary req path ≡ some payload)
      × (call ≡ call_of o req path auth payload)

  In-deliver :
      (d : Option (JsMap Json)) (req : Request) (path : PathDefinition) (auth : ProcessedAuthData)
      (call : Call)
      → In call (calls_in (deliver o d req path auth).effects)
      → (payload : JsMap Json) × (d ≡ some payload) × (call ≡ call_of o req path auth payload)
  In-deliver none req path auth call h = absurd h
  In-deliver (some payload) req path auth call h = (
    payload,
    refl,
    In-forward_call path (call_of o req path auth payload) call (
        subst (In call) (calls-conclude (forward_call o path (call_of o req path auth payload))) h),
  )

  In-dispatch :
      (req : Request) (path : PathDefinition) (auth : ProcessedAuthData) (call : Call)
      → In call (calls_in (dispatch o req path auth).effects)
      → IsSent call req path auth
  unfolding dispatch
  In-dispatch req path auth call h = In-deliver (data_of o.to_binary req path) req path auth call h

  In-after_acl :
      (r : Result Bool) (req : Request) (path : PathDefinition) (auth : ProcessedAuthData)
      (call : Call)
      → In call (calls_in (after_acl o r req path auth).effects)
      → (r ≡ ok true) × IsSent call req path auth
  In-after_acl (err e) req path auth call h = absurd (subst (In call) (calls-send _ _) h)
  In-after_acl (ok false) req path auth call h = absurd (subst (In call) (calls-send _ _) h)
  In-after_acl (ok true) req path auth call h = (refl, In-dispatch req path auth call h)

  abbrev IsAllowed : Request → PathDefinition → Providers → ProcessedAuthData → Type 0
  IsAllowed req path st auth =
      (path.allow_anonymous ≡ true)
      ⊎ IsAuthorized o.acl st auth path (some (extract_resource_context req))

  In-authorize :
      (req : Request) (path : PathDefinition) (st : Providers) (auth : ProcessedAuthData)
      (call : Call)
      → In call (calls_in (authorize o req path st auth).effects)
      → IsAllowed req path st auth × IsSent call req path auth
  unfolding authorize
  In-authorize req path st auth call h = elim (Bool-cases path.allow_anonymous) [
    | inl e ↦ (
      inl e,
      In-dispatch req path auth call (
          subst (λ b. In call (calls_in (if b then dispatch o req path auth else acl_run).effects))
            e h),
    )
    | inr e ↦
        let (a, s) = In-after_acl decision req path auth call (
          subst (λ b. In call (calls_in (if b then dispatch o req path auth else acl_run).effects))
            e h) in
        (inr (check_actions-IsAuthorized o.acl st auth path ctx a), s)
  ]
    where
      ctx : Option ResourceContext
      ctx = some (extract_resource_context req)

      decision : Result Bool
      decision = check_actions o.acl st auth path ctx

      acl_run : Run
      acl_run = after_acl o decision req path auth

  abbrev IsParsed : Call → Request → PathDefinition → Providers → ProcessedAuthData → Type 0
  IsParsed call req path st auth =
      (req' : Request) × (o.parse_multipart req ≡ inr req')
      × IsAllowed req' path st auth
      × IsSent call req' path auth

  In-after_parse :
      (r : Failure ⊎ Request) (path : PathDefinition) (st : Providers) (auth : ProcessedAuthData)
      (call : Call)
      → In call (calls_in (after_parse o r path st auth).effects)
      → (req : Request) × (r ≡ inr req) × IsAllowed req path st auth × IsSent call req path auth
  In-after_parse (inl e) path st auth call h = absurd (subst (In call) (calls-send _ _) h)
  In-after_parse (inr req) path st auth call h =
      let (a, s) = In-authorize req path st auth call h in (req, refl, a, s)

  abbrev IsKnown : Request → PathDefinition → Providers → Type 0
  IsKnown req path st =
      (path.allow_anonymous ≡ true)
      ⊎ ((given path.auth ≡ false) ⊎ IsAuthenticated o.platform req path st)

  -- A call of the broker for a request: who sent it and what it may do have been established.
  abbrev pub IsCleared : Call → Request → PathDefinition → Providers → Type 0
  IsCleared call req path st =
      (auth : ProcessedAuthData) × ((process_auth_data o.platform req path st).0 ≡ ok auth)
      × ((path.allow_anonymous ≡ true)
          ⊎ ((given path.auth ≡ false) ⊎ IsAuthenticated o.platform req path st))
      × IsParsed call req path st auth

  In-unless :
      (b : Bool) (run : Run) (call : Call)
      → In call (calls_in (if b then refuse o "Unauthorized" "Unauthorized" 401 else run).effects)
      → (b ≡ false) × In call (calls_in run.effects)
  In-unless true run call h = absurd (subst (In call) (calls-send _ _) h)
  In-unless false run call h = (refl, h)

  IsKnown-of_guard :
      (req : Request) (path : PathDefinition) (st : Providers) (auth : ProcessedAuthData)
      → (process_auth_data o.platform req path st).0 ≡ ok auth
      → (not path.allow_anonymous && given path.auth && not (truthy (get auth "success"))) ≡ false
      → IsKnown req path st
  IsKnown-of_guard req path st auth q g = elim (Bool-cases path.allow_anonymous) [
    | inl a ↦ inl a
    | inr a ↦ elim (Bool-cases (given path.auth)) [
      | inr b ↦ inr (inl b)
      | inl b ↦ inr (
          inr (
            process_auth_data-IsAuthenticated o.platform req path st auth q
              (ground (arith, a, b, g))))
    ]
  ]

  In-after_auth :
      (r : Result ProcessedAuthData) (req : Request) (path : PathDefinition) (st : Providers)
      (call : Call)
      → (process_auth_data o.platform req path st).0 ≡ r
      → In call (calls_in (after_auth o r req path st).effects)
      → IsCleared call req path st
  In-after_auth (err e) req path st call q h = absurd h
  In-after_auth (ok auth) req path st call q h =
      let (g, h') =
        In-unless (not path.allow_anonymous && given path.auth && not (truthy (get auth "success")))
          (after_parse o (o.parse_multipart req) path st auth) call h in
      (
        auth,
        q,
        IsKnown-of_guard req path st auth q g,
        In-after_parse (o.parse_multipart req) path st auth call h',
      )

  -- The broker gets a call for a request only if the route is public, or the provider that it names
  -- has accepted the request (a route may name none) and the ACL service allows the user one of the
  -- route's actions on the resource of the parsed request, where it has any; and the call is the one
  -- that the parsed request and the identity give.
  pub handle-IsCleared :
      (req : Request) (path : PathDefinition) (st : Providers) (call : Call)
      → In call (calls_in (handle o req path st).0.effects)
      → IsCleared call req path st
  unfolding handle
  handle-IsCleared req path st call h =
      In-after_auth (process_auth_data o.platform req path st).0 req path st call refl h
