-- ===== src/Proxy/Socket/Sessions.antt =====
-- What a session may hold and what it is sent.
use nestjs_amqp.Prelude.{
  ℕ, suc, ◌≤◌, String, Bool, true, false, ◌&&◌, ◌||◌, not, Option, none, some, [], ◌∷◌, ◌≡◌, ◌≢◌,
  refl, sym, ◌∙◌, subst, if◌then◌else◌, arith, All-append, Bool-cases, inl, inr, leb, ap, nat_eq,
  eq_iff, ◌==◌,
}
use nestjs_amqp.Prelude.Result.{Result, ok, err}
use nestjs_amqp.JsMap.{JsMap, get, has, set, size}
use nestjs_amqp.JsMap.Laws.{get-set, size-delete-le, All-set_value, All-delete_value}
use nestjs_amqp.Admin.Manifest.{Json, truthy}
use nestjs_amqp.Proxy.Provider.{Provider, Providers, given, find_provider}
use nestjs_amqp.Proxy.Jwt.{Claims}
use nestjs_amqp.Proxy.Auth.{
  ProcessedAuthData, Platform, Acl, has_actions, shown, verify_token, map_claims, actions_of,
  denied, check_actions_for_claims,
}
use nestjs_amqp.Proxy.Auth.Gate.{
  IsGranted, check_actions_for_claims-guards, check_actions_for_claims-IsGranted,
  has_actions-is_empty,
}
use nestjs_amqp.Proxy.Auth.Identity.{map_claims-decoded}
use nestjs_amqp.Proxy.Socket.{
  WebSocketEvent, SocketOptions, Subscription, Session, is_expired, handle_disconnect, Verdict,
  refused, admitted, authorize_event, acl_allows, provider_of, succeeds, is_required, after_claims,
  decide, resolve_claims, memoized, verified, wait, subscribe, finish, Frame, subscribes,
  unsubscribes, is_other, on_frame, on_client_message, remembered, exp_of, first_exp, or_false,
}
use nestjs_amqp.Proxy.Socket.Tokens.{
  IsKnown, IsAdmitted, HasOrigin, HasMemory, IsSound, closed-IsSound, IsKnown-later,
  IsAdmitted-later, All-mono, All-values_mono, ReadsPayload, IsRead-verify_token, same_payload,
}

size-set :
    (m : JsMap Subscription) (k : String) (v : Subscription) → size (set m k v) ≤ suc (size m)
size-set [] k v = ground arith
size-set ((j, w) ∷ m) k v = ground (arith, size-set m k v)

module _ (e : Platform) (acl : Acl) (providers : Providers) (options : SocketOptions) where
  -- the test that stops a subscription
  abbrev stops : Subscription → Session → Bool
  stops sub s =
      (not (nat_eq options.max_subscriptions 0)
        && leb options.max_subscriptions (size s.subscriptions))
      || has s.subscriptions sub.event.name

  pub if-IsSound :
      (b : Bool) (s t : Session)
      → IsSound e acl providers options s
      → (b ≡ false → IsSound e acl providers options t)
      → IsSound e acl providers options (if b then s else t)
  if-IsSound true s t p q = p
  if-IsSound false s t p q = q refl

  subscribe-IsSound :
      (sub : Subscription) (s : Session)
      → IsAdmitted e acl providers options s.token s.token_exp sub
      → IsSound e acl providers options s
      → IsSound e acl providers options (subscribe e acl providers options sub s)
  unfolding subscribe
  subscribe-IsSound sub s a (b, (q, p), o, m) =
      if-IsSound (stops sub s) s
        (record s { subscriptions = set s.subscriptions sub.event.name sub }) (b, (q, p), o, m)
        (λ h. (
          (λ n. ground (arith, h, n, size-set s.subscriptions sub.event.name sub)),
          (
            All-set_value (IsAdmitted e acl providers options s.token s.token_exp) s.subscriptions
                sub.event.name sub q a,
            p,
          ),
          o,
          m,
        ))

  pub finish-IsSound :
      (o : Option Subscription) (s : Session)
      → ((sub : Subscription)
          → o ≡ some sub
          → IsAdmitted e acl providers options s.token s.token_exp sub)
      → IsSound e acl providers options s
      → IsSound e acl providers options (finish e acl providers options o s)
  finish-IsSound none s a i = i
  finish-IsSound (some sub) s a i = subscribe-IsSound sub s (a sub refl) i

  HasOrigin-first :
      (token : Option String) (exp : Option ℕ) (p : Provider) (decoded : Option Claims)
      → (verify_token e p token providers.clients).0 ≡ decoded
      → HasOrigin e acl providers options token exp
      → HasOrigin e acl providers options token (first_exp exp (exp_of decoded))
  HasOrigin-first token (some m) p decoded v o n h = o n h
  HasOrigin-first token none p none v o n h = absurd (cc)
  HasOrigin-first token none p (some d) v o n h = (p, d, v, h)

  -- The end of a token that is decoded is the recorded one.
  captured :
      (token : Option String) (exp : Option ℕ) (p : Provider) (d : Claims)
      → ReadsPayload e acl providers options
      → HasOrigin e acl providers options token exp
      → (verify_token e p token providers.clients).0 ≡ some d
      → (n : ℕ) → exp_of (some d) ≡ some n
      → first_exp exp (exp_of (some d)) ≡ some n
  captured token none p d reads o v n h = h
  captured token (some m) p d reads o v n h =
      let (p', d', v', x) = o m refl in
      let same =
        same_payload e acl providers options token d' d reads
          (IsRead-verify_token e acl providers options p' token d' v')
          (IsRead-verify_token e acl providers options p token d v) in
      sym x ∙ ap (λ c. exp_of (some c)) same ∙ h

  IsSound-later :
      (s : Session) (p : Provider) (decoded : Option Claims)
      → (verify_token e p s.token providers.clients).0 ≡ decoded
      → IsSound e acl providers options s
      → IsSound e acl providers options
          (record s { token_exp = first_exp s.token_exp (exp_of decoded) })
  IsSound-later s p decoded v (b, (q, a), o, m) = (
    b,
    (
      All-values_mono e acl providers options
          (IsAdmitted e acl providers options s.token s.token_exp)
          (IsAdmitted e acl providers options s.token (first_exp s.token_exp (exp_of decoded)))
          (IsAdmitted-later e acl providers options s.token s.token_exp (exp_of decoded))
          s.subscriptions q,
      All-mono e acl providers options (IsAdmitted e acl providers options s.token s.token_exp)
          (IsAdmitted e acl providers options s.token (first_exp s.token_exp (exp_of decoded)))
          (IsAdmitted-later e acl providers options s.token s.token_exp (exp_of decoded)) s.pending
          a,
    ),
    HasOrigin-first s.token s.token_exp p decoded v o,
    (λ name claims g t.
        IsKnown-later e acl providers options s.token s.token_exp (exp_of decoded) name claims
          (m name claims g t)),
  )

  -- A sound session, and claims that are known where they tell of success.
  abbrev IsResolved : String → Result ProcessedAuthData × Session → Type 0
  IsResolved name r =
      IsSound e acl providers options r.1
      × ((claims : ProcessedAuthData)
          → r.0 ≡ ok claims
          → truthy (get claims "success") ≡ true
          → IsKnown e acl providers options r.1.token r.1.token_exp name claims)

  HasMemory-set :
      (token : Option String) (exp : Option ℕ) (memo : JsMap ProcessedAuthData) (name : String)
      (claims : ProcessedAuthData)
      → HasMemory e acl providers options token exp memo
      → (truthy (get claims "success") ≡ true
          → IsKnown e acl providers options token exp name claims)
      → HasMemory e acl providers options token exp (set memo name claims)
  HasMemory-set token exp memo name claims m k name' claims' g t =
      elim (Bool-cases (name == name')) [
        | inl same ↦
            (let found : some claims ≡ some claims' =
                ground (arith, same, g, get-set memo name name' claims) in
              let it : claims ≡ claims' = cc in
              subst (λ n. IsKnown e acl providers options token exp n claims')
                ((eq_iff name name').0 same)
                (subst (IsKnown e acl providers options token exp name) it
                  (k (ap (λ c. truthy (get c "success")) it ∙ t))))
        | inr other ↦ m name' claims' (ground (arith, other, g, get-set memo name name' claims)) t
      ]

  IsResolved-remembered :
      (name : String) (r : Result ProcessedAuthData) (s : Session)
      → IsSound e acl providers options s
      → ((claims : ProcessedAuthData)
          → r ≡ ok claims
          → truthy (get claims "success") ≡ true
          → IsKnown e acl providers options s.token s.token_exp name claims)
      → IsResolved name (r, remembered e acl providers options name r s)
  IsResolved-remembered name (err x) s i k = (i, k)
  IsResolved-remembered name (ok claims) s (b, a, o, m) k = (
    (b, a, o, HasMemory-set s.token s.token_exp s.auth_by_provider name claims m (k claims refl)),
    k,
  )

  IsResolved-verified :
      (o : Option Provider) (name : String) (s : Session)
      → ReadsPayload e acl providers options
      → find_provider providers.current name ≡ o
      → IsSound e acl providers options s
      → IsResolved name (verified e acl providers options o name s)
  IsResolved-verified none name s reads f i =
      IsResolved-remembered name (ok denied) s i (λ claims q t.
        let it : denied ≡ claims = cc in
        let refused = ap (λ c. truthy (get c "success")) it in absurd (cc))
  IsResolved-verified (some p) name s reads f i =
      let decoded = (verify_token e p s.token providers.clients).0 in
      IsResolved-remembered name (map_claims e.dest_of p decoded)
        (record s { token_exp = first_exp s.token_exp (exp_of decoded) })
        (IsSound-later s p decoded refl i)
        (λ claims q t.
          let (d, v) = map_claims-decoded e none p decoded claims q t in
          (
            p,
            d,
            f,
            v,
            ap (map_claims e.dest_of p) (sym v) ∙ q,
            λ n h.
                ap (λ x. first_exp s.token_exp (exp_of x)) v
                ∙ captured s.token s.token_exp p d reads i.2 v n h,
          ))

  IsResolved-memoized :
      (o : Option ProcessedAuthData) (name : String) (s : Session)
      → ReadsPayload e acl providers options
      → get s.auth_by_provider name ≡ o
      → IsSound e acl providers options s
      → IsResolved name (memoized e acl providers options o name s)
  IsResolved-memoized none name s reads g i =
      IsResolved-verified (find_provider providers.current name) name s reads refl i
  IsResolved-memoized (some had) name s reads g i =
      (i, (λ claims q t. let it : had ≡ claims = cc in i.3 name claims (g ∙ ap some it) t))

  abbrev asked : WebSocketEvent → Option (JsMap Json) → Option ProcessedAuthData → Subscription
  asked event selected claims = record { event = event; selected = selected; claims = claims }

  -- A sound session, and a subscription that may be stored if it is admitted.
  abbrev IsDecided : WebSocketEvent → Option (JsMap Json) → Result Verdict × Session → Type 0
  IsDecided event selected r =
      IsSound e acl providers options r.1
      × ((claims : Option ProcessedAuthData)
          → r.0 ≡ ok (admitted claims)
          → IsAdmitted e acl providers options r.1.token r.1.token_exp
              (asked event selected claims))

  authorize_event-claims :
      (event : WebSocketEvent) (had claims : Option ProcessedAuthData)
      → authorize_event e acl providers options event had ≡ admitted claims
      → (had ≡ claims)
        × (has_actions event.actions ≡ true
            → acl_allows e acl providers options
                (provider_of e acl providers options event)
                had
                event
              ≡ true)
  unfolding authorize_event
  authorize_event-claims event had claims h = (ground (arith, h), λ a. ground (arith, h, a))

  provider_of-some :
      (event : WebSocketEvent) (p : Provider)
      → provider_of e acl providers options event ≡ some p
      → (given event.auth ≡ true) × (find_provider providers.current (shown event.auth) ≡ some p)
  provider_of-some event p h = elim (Bool-cases (given event.auth)) [
    | inl g ↦ (g, ground (arith, g, h))
    | inr g ↦ absurd (ground (arith, g, h))
  ]

  or_false-ok : (r : Result Bool) → or_false e acl providers options r ≡ true → r ≡ ok true
  or_false-ok (ok b) h = ap ok h
  or_false-ok (err x) h = absurd (cc)

  acl_allows-IsGranted :
      (o : Option Provider) (had : Option ProcessedAuthData) (event : WebSocketEvent)
      → has_actions event.actions ≡ true
      → acl_allows e acl providers options o had event ≡ true
      → (p : Provider) × (claims : ProcessedAuthData) × (o ≡ some p)
        × (had ≡ some claims)
        × (truthy (get claims "success") ≡ true)
        × IsGranted acl p claims (actions_of event.actions) none
  acl_allows-IsGranted none had event a h = absurd (cc)
  acl_allows-IsGranted (some p) none event a h = absurd (cc)
  acl_allows-IsGranted (some p) (some claims) event a h =
      let n = has_actions-is_empty event.actions a in
      let ask = check_actions_for_claims acl p claims (actions_of event.actions) none in
      let allowed : ask ≡ ok true = or_false-ok ask (ground (arith, h)) in
      let (k, u) =
        check_actions_for_claims-guards acl p claims (actions_of event.actions) none n allowed in
      (
        p,
        claims,
        refl,
        refl,
        ground (arith, h),
        check_actions_for_claims-IsGranted acl p claims (actions_of event.actions) none n allowed k
            u,
      )

  IsAdmitted-authorized :
      (event : WebSocketEvent) (selected : Option (JsMap Json)) (token : Option String)
      (exp : Option ℕ) (had claims : Option ProcessedAuthData)
      → (given event.auth ≡ true
          → event.require_auth ≢ some false
          → (c : ProcessedAuthData) × (had ≡ some c)
            × (truthy (get c "success") ≡ true)
            × IsKnown e acl providers options token exp (shown event.auth) c)
      → authorize_event e acl providers options event had ≡ admitted claims
      → IsAdmitted e acl providers options token exp (asked event selected claims)
  IsAdmitted-authorized event selected token exp had claims known h =
      let (same, allows) = authorize_event-claims event had claims h in
      (
        (λ g r. let (c, q, t, k) = known g r in (c, sym same ∙ q, t, k)),
        (λ a.
            let (p, c, f, q, t, granted) =
              acl_allows-IsGranted (provider_of e acl providers options event) had event a
                (allows a) in
            let (g, found) = provider_of-some event p f in
            (p, c, g, found, sym same ∙ q, t, granted)),
      )

  pick-IsDecided :
      (b : Bool) (event : WebSocketEvent) (selected : Option (JsMap Json))
      (x y : Result Verdict × Session)
      → (b ≡ true → IsDecided event selected x)
      → (b ≡ false → IsDecided event selected y)
      → IsDecided event selected (if b then x else y)
  pick-IsDecided true event selected x y p q = p refl
  pick-IsDecided false event selected x y p q = q refl

  is_required-true :
      (r : Option Bool) → r ≢ some false → is_required e acl providers options r ≡ true
  is_required-true none n = refl
  is_required-true (some true) n = refl
  is_required-true (some false) n = absurd (n refl)

  IsDecided-after_claims :
      (r : Result ProcessedAuthData) (s : Session) (event : WebSocketEvent)
      (selected : Option (JsMap Json))
      → IsResolved (shown event.auth) (r, s)
      → IsDecided event selected (after_claims e acl providers options (r, s) event)
  IsDecided-after_claims (err x) s event selected (i, k) = (i, (λ claims h. absurd (cc)))
  IsDecided-after_claims (ok had) s event selected (i, k) =
      pick-IsDecided
        (is_required e acl providers options event.require_auth
          && not (succeeds e acl providers options (some had)))
        event selected (ok (refused "unauthorized"), s)
        (ok (authorize_event e acl providers options event (some had)), s)
        (λ b. (i, (λ claims h. absurd (cc))))
        (λ b. (
          i,
          (λ claims h.
              IsAdmitted-authorized event selected s.token s.token_exp (some had) claims
                (λ g n.
                  let success : truthy (get had "success") ≡ true =
                    ground (arith, b, is_required-true event.require_auth n) in
                  (had, refl, success, k had refl success))
                (cc)),
        ))

  IsDecided-decide :
      (event : WebSocketEvent) (selected : Option (JsMap Json)) (s : Session)
      → ReadsPayload e acl providers options
      → IsSound e acl providers options s
      → IsDecided event selected (decide e acl providers options event s)
  unfolding decide resolve_claims
  IsDecided-decide event selected s reads i =
      let name = shown event.auth in
      let r = memoized e acl providers options (get s.auth_by_provider name) name s in
      pick-IsDecided (given event.auth) event selected
        (after_claims e acl providers options r event)
        (ok (authorize_event e acl providers options event none), s)
        (λ g.
          IsDecided-after_claims r.0 r.1 event selected
            (IsResolved-memoized (get s.auth_by_provider name) name s reads refl i))
        (λ g. (
          i,
          (λ claims h.
              IsAdmitted-authorized event selected s.token s.token_exp none claims
                (λ w n. absurd (ground (arith, g, w))) (cc)),
        ))

  wait-IsSound :
      (r : Result Verdict) (s : Session) (event : WebSocketEvent) (selected : Option (JsMap Json))
      → IsDecided event selected (r, s)
      → IsSound e acl providers options (wait e acl providers options (r, s) event selected)
  wait-IsSound (err x) s event selected (i, k) = i
  wait-IsSound (ok (refused reason)) s event selected (i, k) = i
  wait-IsSound (ok (admitted claims)) s event selected ((l, (q, p), o, m), k) = (
    l,
    (
      q,
      All-append (IsAdmitted e acl providers options s.token s.token_exp) s.pending _ p
          (k claims refl, tt),
    ),
    o,
    m,
  )

  on_frame-IsSound :
      (f : Frame e acl providers options) (s : Session)
      → ReadsPayload e acl providers options
      → IsSound e acl providers options s
      → IsSound e acl providers options (on_frame e acl providers options f s)
  unfolding on_frame
  on_frame-IsSound (subscribes event selected) s reads i =
      let r = decide e acl providers options event s in
      wait-IsSound r.0 r.1 event selected (IsDecided-decide event selected s reads i)
  on_frame-IsSound (unsubscribes name) s reads (l, (q, p), o, m) = (
    (λ n. ground (arith, l n, size-delete-le s.subscriptions name)),
    (
      All-delete_value (IsAdmitted e acl providers options s.token s.token_exp) s.subscriptions name
          q,
      p,
    ),
    o,
    m,
  )
  on_frame-IsSound is_other s reads i = i

  pub on_client_message-IsSound :
      (now bytes : ℕ) (f : Frame e acl providers options) (s : Session)
      → ReadsPayload e acl providers options
      → IsSound e acl providers options s
      → IsSound e acl providers options (on_client_message e acl providers options now bytes f s)
  unfolding on_client_message
  on_client_message-IsSound now bytes f s reads i =
      if-IsSound (is_expired now s.token_exp) (handle_disconnect s) _
        (closed-IsSound e acl providers options s i)
        (λ w.
          if-IsSound _ s (on_frame e acl providers options f s) i
            (λ v. on_frame-IsSound f s reads i))
