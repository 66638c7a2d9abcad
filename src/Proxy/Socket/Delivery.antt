-- ===== src/Proxy/Socket/Delivery.antt =====
-- What a session is sent.
use nestjs_amqp.Prelude.{
  ℕ, ◌*◌, ◌≤◌, ◌<◌, String, Bool, true, false, ◌||◌, not, Option, none, some, List, [], ◌∷◌, ◌≡◌,
  ◌≢◌, ◌⊎◌, inl, inr, refl, ap, subst, ◌∙◌, if◌then◌else◌, arith, eq_iff, All, All-append, ltb,
}
use nestjs_amqp.Prelude.Result.{ok}
use nestjs_amqp.JsMap.{get, size}
use nestjs_amqp.Admin.Manifest.{Json, null, boolean, number, text, truthy}
use nestjs_amqp.Proxy.Provider.{Provider, Providers, JwksClient, given, find_provider}
use nestjs_amqp.Proxy.Jwt.{shared, fetched, Claims, jwks_client_for}
use nestjs_amqp.Proxy.Jwt.Algorithms.{
  IsVerified, verify_token_secret-IsVerified, verify_token_jwks-IsVerified,
}
use nestjs_amqp.Proxy.Auth.{
  ProcessedAuthData, Platform, Acl, has_actions, actions_of, shown, verify_token, map_claims,
}
use nestjs_amqp.Proxy.Auth.Gate.{IsGranted}
use nestjs_amqp.Proxy.Auth.Identity.{verify_token-cases}
use nestjs_amqp.Proxy.Socket.{
  WebSocketEvent, SocketOptions, Subscription, Session, opened, is_expired, handle_disconnect,
  matches, claim_at, in_scope, same, same_option, property, exp_of, end_of, take_at, drop_at, Sent,
  push, push_to, Turn, frame, settles, pushed, heartbeat, closes, turn, run_turns,
}
use nestjs_amqp.JsMap.Laws.{All-get_value}
use nestjs_amqp.Proxy.Socket.Kept.{token-on_client_message, token-finish, token-if}
use nestjs_amqp.Proxy.Socket.Tokens.{
  ReadsPayload, IsAdmitted, IsSound, closed-IsSound, All-drop, All-take,
}
use nestjs_amqp.Proxy.Socket.Sessions.{if-IsSound, finish-IsSound, on_client_message-IsSound}

-- Values that are strictly equal are the same.
same_sound : (j k : Json) → same j k ≡ true → j ≡ k
same_sound null null h = refl
same_sound (boolean true) (boolean true) h = refl
same_sound (boolean false) (boolean false) h = refl
same_sound (number m) (number n) h = let q : m ≡ n = ground (arith, h) in ap number q
same_sound (text s) (text t) h = ap text ((eq_iff s t).0 h)
same_sound j k h = absurd (cc)

module _ (e : Platform) (acl : Acl) (providers : Providers) (options : SocketOptions) where
  -- `verify` has accepted the token with a key of the provider, by safe algorithms.
  abbrev pub IsDecoded : Provider → Option String → Claims → Type 0
  IsDecoded p token d =
      ((p.kind ≡ "jwt")
        × ((s : String) × (p.secret ≡ some s)
            × (s ≢ "")
            × IsVerified e.verify false p token (shared s) d))
      ⊎ ((p.kind ≡ "jwks")
          × ((c : JwksClient) × ((jwks_client_for p providers.clients).0 ≡ some c)
              × IsVerified e.verify true p token (fetched c) d))

  -- Where the event asks for a known subscriber, its claims are those of the token, which the event's
  -- provider accepts, and the token has not ended yet.
  abbrev pub IsIdentified : Option String → ℕ → Subscription → Type 0
  IsIdentified token at sub =
      given sub.event.auth ≡ true
      → sub.event.require_auth ≢ some false
      → (p : Provider) × (d : Claims) × (claims : ProcessedAuthData) × (find_provider
            providers.current (shown sub.event.auth)
          ≡ some p)
        × IsDecoded p token d
        × (map_claims e.dest_of p (some d) ≡ ok claims)
        × (truthy (get claims "success") ≡ true)
        × (sub.claims ≡ some claims)
        × ((n : ℕ) → get d "exp" ≡ some (number n) → n ≢ 0 → at < n * 1000)

  -- Where the event has actions, the ACL service allows one of them to the user of the claims.
  abbrev pub IsPermitted : Subscription → Type 0
  IsPermitted sub =
      has_actions sub.event.actions ≡ true
      → (p : Provider) × (claims : ProcessedAuthData) × (given sub.event.auth ≡ true)
        × (find_provider providers.current (shown sub.event.auth) ≡ some p)
        × (sub.claims ≡ some claims)
        × (truthy (get claims "success") ≡ true)
        × IsGranted acl p claims (actions_of sub.event.actions) none

  -- Where the event is scoped, the payload has the value of the subscriber's claim under its key.
  abbrev pub IsInScope : Subscription → Json → Type 0
  IsInScope sub payload =
      given sub.event.scope_claim ≡ true
      → (claims : ProcessedAuthData) × (value : Json) × (sub.claims ≡ some claims)
        × (get claims (shown sub.event.scope_claim) ≡ some value)
        × (given sub.event.payload_key ≡ true)
        × (property payload (shown sub.event.payload_key) ≡ some value)

  abbrev pub IsDue : Option String → Sent e acl providers options → Type 0
  IsDue token sent =
      IsIdentified token sent.at sent.subscription
      × IsPermitted sent.subscription
      × IsInScope sent.subscription sent.payload

  exp_of-number :
      (d : Claims) (n : ℕ) → get d "exp" ≡ some (number n) → n ≢ 0 → exp_of (some d) ≡ some n
  exp_of-number d n h z = ap end_of h ∙ ground (arith, z)

  before_end :
      (now n : ℕ) (exp : Option ℕ) → exp ≡ some n → is_expired now exp ≡ false → now < n * 1000
  unfolding is_expired
  before_end now n none h x = absurd (cc)
  before_end now n (some m) h x = let q : m ≡ n = cc in ground (arith, x, q)

  IsDecoded-verify_token :
      (p : Provider) (token : Option String) (d : Claims)
      → (verify_token e p token providers.clients).0 ≡ some d
      → IsDecoded p token d
  IsDecoded-verify_token p token d h =
      elim (verify_token-cases e none p token providers.clients d h) [
        | inl (k, v) ↦ inl (k, verify_token_secret-IsVerified e.verify p token d v)
        | inr (k, v) ↦ inr (k, verify_token_jwks-IsVerified e.verify p token providers.clients d v)
      ]

  IsIdentified-admitted :
      (token : Option String) (exp : Option ℕ) (now : ℕ) (sub : Subscription)
      → IsAdmitted e acl providers options token exp sub
      → is_expired now exp ≡ false
      → IsIdentified token now sub
  IsIdentified-admitted token exp now sub (a, b) x g r =
      let (claims, q, t, (p, d, f, v, m, end)) = a g r in
      (
        p,
        d,
        claims,
        f,
        IsDecoded-verify_token p token d v,
        m,
        t,
        q,
        (λ n h z. before_end now n exp (end n (exp_of-number d n h z)) x),
      )

  claim_at-some :
      (o : Option ProcessedAuthData) (name : Option String) (value : Json)
      → claim_at o name ≡ some value
      → (claims : ProcessedAuthData) × (o ≡ some claims) × (get claims (shown name) ≡ some value)
  claim_at-some none name value h = absurd (cc)
  claim_at-some (some claims) none value h = absurd (cc)
  claim_at-some (some claims) (some k) value h = (claims, refl, h)

  same_option-some : (o : Option Json) (value : Json) → same_option o value ≡ true → o ≡ some value
  same_option-some none value h = absurd (cc)
  same_option-some (some j) value h = ap some (same_sound j value h)

  in_scope-some :
      (event : WebSocketEvent) (o : Option Json) (payload : Json)
      → in_scope event o payload ≡ true
      → (value : Json) × (o ≡ some value)
        × (given event.payload_key ≡ true)
        × (same_option (property payload (shown event.payload_key)) value ≡ true)
  in_scope-some event none payload h = absurd (cc)
  in_scope-some event (some value) payload h = (value, refl, ground (arith, h), ground (arith, h))

  matches-IsInScope :
      (sub : Subscription) (payload : Json) → matches sub payload ≡ true → IsInScope sub payload
  unfolding matches
  matches-IsInScope sub payload m g =
      let scoped : in_scope sub.event (claim_at sub.claims sub.event.scope_claim) payload ≡ true =
        ground (arith, m, g) in
      let (value, q, k, w) = in_scope-some sub.event _ payload scoped in
      let (claims, c, v) = claim_at-some sub.claims sub.event.scope_claim value q in
      (claims, value, c, v, k, same_option-some _ value w)

  -- An outcome that is sound, with the token that it had and messages that are due.
  abbrev IsFine : Option String → Session × List (Sent e acl providers options) → Type 0
  IsFine token r = IsSound e acl providers options r.0 × (r.0.token ≡ token) × All (IsDue token) r.1

  if-IsFine :
      (token : Option String) (b : Bool) (x y : Session × List (Sent e acl providers options))
      → (b ≡ true → IsFine token x)
      → (b ≡ false → IsFine token y)
      → IsFine token (if b then x else y)
  if-IsFine token true x y p q = p refl
  if-IsFine token false x y p q = q refl

  push_to-IsFine :
      (now : ℕ) (is_open : Bool) (buffered : ℕ) (payload : Json) (o : Option Subscription)
      (s : Session)
      → ((sub : Subscription)
          → o ≡ some sub
          → IsAdmitted e acl providers options s.token s.token_exp sub)
      → IsSound e acl providers options s
      → IsFine s.token (push_to e acl providers options now is_open buffered payload o s)
  unfolding handle_disconnect
  push_to-IsFine now is_open buffered payload none s a i = (i, refl, tt)
  push_to-IsFine now is_open buffered payload (some sub) s a i =
      if-IsFine s.token (not (matches sub payload)) (s, []) _ (λ h. (i, refl, tt))
        (λ m.
          if-IsFine s.token (is_expired now s.token_exp) (handle_disconnect s, []) _
            (λ h. (closed-IsSound e acl providers options s i, refl, tt))
            (λ x.
              if-IsFine s.token (not is_open || ltb options.max_buffered_bytes buffered) (s, []) _
                (λ h. (i, refl, tt))
                (λ h. (
                  i,
                  refl,
                  (
                    (
                      IsIdentified-admitted s.token s.token_exp now sub (a sub refl) x,
                      (a sub refl).1,
                      matches-IsInScope sub payload (ground (arith, m)),
                    ),
                    tt,
                  ),
                ))))

  turn-IsFine :
      (t : Turn e acl providers options) (s : Session)
      → ReadsPayload e acl providers options
      → IsSound e acl providers options s
      → IsFine s.token (turn e acl providers options t s)
  unfolding turn push handle_disconnect
  turn-IsFine (frame now bytes f) s reads i = (
    on_client_message-IsSound e acl providers options now bytes f s reads i,
    token-on_client_message e acl providers options now bytes f s,
    tt,
  )
  turn-IsFine (settles place) s reads (l, (q, p), o, m) =
      let rest = drop_at e acl providers options s.pending place in
      let P = IsAdmitted e acl providers options s.token s.token_exp in
      (
        finish-IsSound e acl providers options (take_at e acl providers options s.pending place)
            (record s { pending = rest })
            (λ sub h. All-take e acl providers options P s.pending place sub p h)
            (l, (q, All-drop e acl providers options P s.pending place p), o, m),
        token-finish e acl providers options (take_at e acl providers options s.pending place)
            (record s { pending = rest }),
        tt,
      )
  turn-IsFine (pushed now is_open buffered name payload) s reads (l, (q, p), o, m) =
      push_to-IsFine now is_open buffered payload (get s.subscriptions name) s
        (λ sub h.
          All-get_value (IsAdmitted e acl providers options s.token s.token_exp) s.subscriptions
            name sub q h)
        (l, (q, p), o, m)
  turn-IsFine (heartbeat now) s reads i = (
    if-IsSound e acl providers options (is_expired now s.token_exp) (handle_disconnect s) s
        (closed-IsSound e acl providers options s i) (λ h. i),
    token-if e acl providers options (is_expired now s.token_exp) (handle_disconnect s) s s.token
        refl refl,
    tt,
  )
  turn-IsFine closes s reads i = (closed-IsSound e acl providers options s i, refl, tt)

  run_turns-IsFine :
      (ts : List (Turn e acl providers options)) (s : Session) (token : Option String)
      → ReadsPayload e acl providers options
      → s.token ≡ token
      → IsSound e acl providers options s
      → IsFine token (run_turns e acl providers options ts s)
  unfolding run_turns
  run_turns-IsFine [] s token reads k i = (i, k, tt)
  run_turns-IsFine (t ∷ ts) s token reads k i =
      let r = turn e acl providers options t s in
      let (j, kept, d) = turn-IsFine t s reads i in
      let (j', kept', d') = run_turns-IsFine ts r.0 token reads (kept ∙ k) j in
      (j', kept', All-append (IsDue token) r.1 _ (subst (λ u. All (IsDue u) r.1) k d) d')

  -- Given that `verify` of jsonwebtoken reads the payload of a token, whatever key accepts it: whatever
  -- a client, the broker and the clock do, and in whatever order pending subscriptions are stored, a
  -- session has no more subscriptions than the limit, if there is one; and each message that goes out
  -- belongs to a subscription whose event, where it asks for a known subscriber, has a provider that
  -- accepts the session's token, before the end that the token itself states, and, where it has
  -- actions, has one that the ACL service allows to the subscriber; and where the event is scoped, the
  -- message carries the value of the subscriber's own claim.
  pub run_turns-IsDue :
      (ts : List (Turn e acl providers options)) (token : Option String)
      → ReadsPayload e acl providers options
      → (options.max_subscriptions ≢ 0
          → size (run_turns e acl providers options ts (opened token)).0.subscriptions
            ≤ options.max_subscriptions)
        × All (IsDue token) (run_turns e acl providers options ts (opened token)).1
  run_turns-IsDue ts token reads =
      let ((l, a, o, m), k, d) =
        run_turns-IsFine ts (opened token) token reads refl
          ((λ n. omega arith), (tt, tt), (λ n h. absurd (cc)), (λ name claims g t. absurd (cc))) in
      (l, d)
