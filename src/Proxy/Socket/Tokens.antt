-- ===== src/Proxy/Socket/Tokens.antt =====
-- What a session knows of its token, and what that lets it hold.
use nestjs_amqp.Prelude.{
  ℕ, zero, suc, ◌≤◌, String, true, false, Option, none, some, List, [], ◌∷◌, ◌≡◌, ◌≢◌, subst, arith,
  All, inl, inr, ap,
}
use nestjs_amqp.Prelude.Result.{ok}
use nestjs_amqp.JsMap.{JsMap, get, size}
use nestjs_amqp.Admin.Manifest.{truthy}
use nestjs_amqp.Proxy.Provider.{Provider, Providers, given, find_provider}
use nestjs_amqp.Proxy.Jwt.{KeySource, shared, fetched, VerifyOptions, Claims}
use nestjs_amqp.Proxy.Jwt.Algorithms.{verify_token_secret-IsVerified, verify_token_jwks-IsVerified}
use nestjs_amqp.Proxy.Auth.{
  ProcessedAuthData, Platform, Acl, has_actions, shown, verify_token, map_claims, actions_of,
}
use nestjs_amqp.Proxy.Auth.Gate.{IsGranted}
use nestjs_amqp.Proxy.Auth.Identity.{verify_token-cases}
use nestjs_amqp.Proxy.Socket.{
  SocketOptions, Subscription, Session, handle_disconnect, take_at, drop_at, exp_of, first_exp,
}

module _ (e : Platform) (acl : Acl) (providers : Providers) (options : SocketOptions) where
  -- The token was decoded with the provider of this name, the claims are mapped from it, and the
  -- session has taken over its end.
  abbrev pub IsKnown : Option String → Option ℕ → String → ProcessedAuthData → Type 0
  IsKnown token exp name claims =
      (p : Provider) × (d : Claims) × (find_provider providers.current name ≡ some p)
      × ((verify_token e p token providers.clients).0 ≡ some d)
      × (map_claims e.dest_of p (some d) ≡ ok claims)
      × ((n : ℕ) → exp_of (some d) ≡ some n → exp ≡ some n)

  -- The subscriber is known where the event asks for it, and the ACL service has allowed it one of the
  -- event's actions where it has any.
  abbrev pub IsAdmitted : Option String → Option ℕ → Subscription → Type 0
  IsAdmitted token exp sub =
      (given sub.event.auth ≡ true
        → sub.event.require_auth ≢ some false
        → (claims : ProcessedAuthData) × (sub.claims ≡ some claims)
          × (truthy (get claims "success") ≡ true)
          × IsKnown token exp (shown sub.event.auth) claims)
      × (has_actions sub.event.actions ≡ true
          → (p : Provider) × (claims : ProcessedAuthData) × (given sub.event.auth ≡ true)
            × (find_provider providers.current (shown sub.event.auth) ≡ some p)
            × (sub.claims ≡ some claims)
            × (truthy (get claims "success") ≡ true)
            × IsGranted acl p claims (actions_of sub.event.actions) none)

  -- The recorded end is the one of a decoded token.
  abbrev pub HasOrigin : Option String → Option ℕ → Type 0
  HasOrigin token exp =
      (n : ℕ)
      → exp ≡ some n
      → (p : Provider) × (d : Claims) × ((verify_token e p token providers.clients).0 ≡ some d)
        × (exp_of (some d) ≡ some n)

  -- What is remembered of a provider that accepted the token is known.
  abbrev pub HasMemory : Option String → Option ℕ → JsMap ProcessedAuthData → Type 0
  HasMemory token exp memo =
      (name : String) (claims : ProcessedAuthData)
      → get memo name ≡ some claims
      → truthy (get claims "success") ≡ true
      → IsKnown token exp name claims

  abbrev pub AreAdmitted : Session → Type 0
  AreAdmitted s =
      All (λ (x : String × Subscription). IsAdmitted s.token s.token_exp x.1) s.subscriptions
      × All (IsAdmitted s.token s.token_exp) s.pending

  -- Within the limit, all admitted, and the token's data in order.
  abbrev pub IsSound : Session → Type 0
  IsSound s =
      (options.max_subscriptions ≢ 0 → size s.subscriptions ≤ options.max_subscriptions)
      × AreAdmitted s
      × HasOrigin s.token s.token_exp
      × HasMemory s.token s.token_exp s.auth_by_provider

  pub closed-IsSound : (s : Session) → IsSound s → IsSound (handle_disconnect s)
  unfolding handle_disconnect
  closed-IsSound s (b, (a, p), o, m) = ((λ n. omega arith), (tt, p), o, m)

  pub All-drop :
      (P : Subscription → Type 0) (ps : List Subscription) (i : ℕ)
      → All P ps
      → All P (drop_at e acl providers options ps i)
  All-drop P [] i h = tt
  All-drop P (p ∷ ps) zero (q, h) = h
  All-drop P (p ∷ ps) (suc i) (q, h) = (q, All-drop P ps i h)

  pub All-take :
      (P : Subscription → Type 0) (ps : List Subscription) (i : ℕ) (sub : Subscription)
      → All P ps
      → take_at e acl providers options ps i ≡ some sub
      → P sub
  All-take P [] i sub h t = absurd (cc)
  All-take P (p ∷ ps) zero sub (q, h) t = let f : p ≡ sub = cc in subst P f q
  All-take P (p ∷ ps) (suc i) sub (q, h) t = All-take P ps i sub h t

  -- A session whose end is taken over later keeps what is known.
  pub IsKnown-later :
      (token : Option String) (exp new : Option ℕ) (name : String) (claims : ProcessedAuthData)
      → IsKnown token exp name claims
      → IsKnown token (first_exp exp new) name claims
  IsKnown-later token exp new name claims (p, d, f, v, m, x) =
      (p, d, f, v, m, λ n h. ap (λ o. first_exp o new) (x n h))

  pub IsAdmitted-later :
      (token : Option String) (exp new : Option ℕ) (sub : Subscription)
      → IsAdmitted token exp sub
      → IsAdmitted token (first_exp exp new) sub
  IsAdmitted-later token exp new sub (a, b) = (
    (λ g r.
        let (claims, q, s, k) = a g r in
        (claims, q, s, IsKnown-later token exp new (shown sub.event.auth) claims k)),
    b,
  )

  pub All-mono :
      (P Q : Subscription → Type 0)
      → ((sub : Subscription) → P sub → Q sub)
      → (ps : List Subscription) → All P ps
      → All Q ps
  All-mono P Q f [] h = tt
  All-mono P Q f (p ∷ ps) (h, t) = (f p h, All-mono P Q f ps t)

  pub All-values_mono :
      (P Q : Subscription → Type 0)
      → ((sub : Subscription) → P sub → Q sub)
      → (m : JsMap Subscription) → All (λ (x : String × Subscription). P x.1) m
      → All (λ (x : String × Subscription). Q x.1) m
  All-values_mono P Q f [] h = tt
  All-values_mono P Q f (x ∷ m) (h, t) = (f x.1 h, All-values_mono P Q f m t)

  -- jsonwebtoken gives the payload of the token, whatever key and options accept it.
  abbrev pub ReadsPayload : Type 0
  ReadsPayload =
      (token : String) (k k' : KeySource) (o o' : VerifyOptions) (c c' : Claims)
      → e.verify token k o ≡ some c
      → e.verify token k' o' ≡ some c'
      → c ≡ c'

  pub IsRead : Option String → Claims → Type 0
  IsRead token d =
      (t : String) × (k : KeySource) × (o : VerifyOptions) × (token ≡ some t)
      × (e.verify t k o ≡ some d)

  pub IsRead-verify_token :
      (p : Provider) (token : Option String) (d : Claims)
      → (verify_token e p token providers.clients).0 ≡ some d
      → IsRead token d
  unfolding IsRead
  IsRead-verify_token p token d h = elim (verify_token-cases e none p token providers.clients d h) [
    | inl (k, v) ↦
        let (s, q, n, (t, algs, f, safe, w)) =
          verify_token_secret-IsVerified e.verify p token d v in
        (t, shared s, record { issuer = p.issuer; audience = p.audience; algorithms = algs }, f, w)
    | inr (k, v) ↦
        let (c, q, (t, algs, f, safe, w)) =
          verify_token_jwks-IsVerified e.verify p token providers.clients d v in
        (t, fetched c, record { issuer = p.issuer; audience = p.audience; algorithms = algs }, f, w)
  ]

  pub same_payload :
      (token : Option String) (c d : Claims)
      → ReadsPayload
      → IsRead token c
      → IsRead token d
      → c ≡ d
  unfolding IsRead
  same_payload token c d reads (t, k, o, q, v) (t', k', o', q', v') =
      let same : t' ≡ t = cc in
      reads t k k' o o' c d v (subst (λ u. e.verify u k' o' ≡ some d) same v')
