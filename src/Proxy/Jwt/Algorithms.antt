-- ===== src/Proxy/Jwt/Algorithms.antt =====
-- A token is verified by safe algorithms only.
use nestjs_amqp.Prelude.{
  String, Bool, true, false, ◌&&◌, Option, none, some, List, [], ◌∷◌, ◌==◌, ◌≡◌, ◌≢◌, inl, inr,
  refl, subst, any, All, arith, eq_iff, Bool-cases, Option-cases,
}
use nestjs_amqp.JsMap.{JsMap}
use nestjs_amqp.Proxy.Provider.{Provider, JwksClient}
use nestjs_amqp.Proxy.Jwt.{
  KeySource, shared, fetched, VerifyOptions, Claims, is_none_algorithm, is_symmetric,
  safe_algorithms, resolve_algorithms, verify_with, verify_fetched, verify_token_jwks,
  verify_token_secret, jwks_client_for,
}

-- An algorithm that signs, and for which the verifier holds no secret if it is to be asymmetric.
abbrev pub IsSafe : Bool → String → Type 0
IsSafe require_asymmetric a =
    (is_none_algorithm a ≡ false) × ((require_asymmetric && is_symmetric a) ≡ false)

All-IsSafe :
    (b : Bool) (algs : List String)
    → any is_none_algorithm algs ≡ false
    → (b && any is_symmetric algs) ≡ false
    → All (IsSafe b) algs
All-IsSafe b [] h k = tt
All-IsSafe b (a ∷ algs) h k = (
  (ground (arith, h), ground (arith, k)),
  All-IsSafe b algs (ground (arith, h)) (ground (arith, k)),
)

safe_algorithms-IsSafe :
    (algs : List String) (b : Bool) (out : List String)
    → safe_algorithms algs b ≡ some out
    → All (IsSafe b) out
unfolding safe_algorithms
safe_algorithms-IsSafe algs b out h =
    let n : any is_none_algorithm algs ≡ false = ground (arith, h) in
    let s : (b && any is_symmetric algs) ≡ false = ground (arith, h) in
    let e : algs ≡ out = ground (arith, h) in subst (All (IsSafe b)) e (All-IsSafe b algs n s)

pub resolve_algorithms-IsSafe :
    (p : Provider) (b : Bool) (out : List String)
    → resolve_algorithms p b ≡ some out
    → All (IsSafe b) out
unfolding resolve_algorithms
resolve_algorithms-IsSafe p b out h = elim (Option-cases p.algorithms) [
  | inl e ↦ absurd (cc)
  | inr ([], e) ↦ absurd (cc)
  | inr (a ∷ more, e) ↦ safe_algorithms-IsSafe (a ∷ more) b out (cc)
]

abbrev options_of : Provider → List String → VerifyOptions
options_of p algs = record { issuer = p.issuer; audience = p.audience; algorithms = algs }

module _ (verify : String → KeySource → VerifyOptions → Option Claims) where
  -- `verify` has accepted the token with a key of the provider, by safe algorithms
  abbrev pub IsVerified : Bool → Provider → Option String → KeySource → Claims → Type 0
  IsVerified b p token key claims =
      (tok : String) × (algs : List String) × (token ≡ some tok)
      × All (IsSafe b) algs
      × (verify tok key (options_of p algs) ≡ some claims)

  verify_with-IsVerified :
      (b : Bool) (p : Provider) (token : Option String) (key : KeySource)
      (algs : Option (List String)) (claims : Claims)
      → ((out : List String) → algs ≡ some out → All (IsSafe b) out)
      → verify_with verify p token key algs ≡ some claims
      → IsVerified b p token key claims
  unfolding verify_with
  verify_with-IsVerified b p token key none claims s h = absurd (cc)
  verify_with-IsVerified b p none key (some algs) claims s h = absurd (cc)
  verify_with-IsVerified b p (some tok) key (some algs) claims s h =
      (tok, algs, refl, s algs refl, ground (arith, h))

  verify_fetched-IsVerified :
      (client : Option JwksClient) (p : Provider) (token : Option String) (claims : Claims)
      → verify_fetched verify client p token ≡ some claims
      → (c : JwksClient) × (client ≡ some c) × IsVerified true p token (fetched c) claims
  verify_fetched-IsVerified none p token claims h = absurd (cc)
  verify_fetched-IsVerified (some c) p token claims h = (
    c,
    refl,
    verify_with-IsVerified true p token (fetched c) (resolve_algorithms p true) claims
        (resolve_algorithms-IsSafe p true) h,
  )

  pub verify_token_jwks-IsVerified :
      (p : Provider) (token : Option String) (clients : JsMap JwksClient) (claims : Claims)
      → (verify_token_jwks verify p token clients).0 ≡ some claims
      → (c : JwksClient) × ((jwks_client_for p clients).0 ≡ some c)
        × IsVerified true p token (fetched c) claims
  unfolding verify_token_jwks
  verify_token_jwks-IsVerified p token clients claims h =
      verify_fetched-IsVerified (jwks_client_for p clients).0 p token claims h

  pub verify_token_secret-IsVerified :
      (p : Provider) (token : Option String) (claims : Claims)
      → verify_token_secret verify p token ≡ some claims
      → (s : String) × (p.secret ≡ some s) × (s ≢ "") × IsVerified false p token (shared s) claims
  unfolding verify_token_secret
  verify_token_secret-IsVerified p token claims h = elim (Option-cases p.secret) [
    | inl e ↦ absurd (cc)
    | inr (s, e) ↦ elim (Bool-cases (s == "")) [
      | inl q ↦ absurd (ground (arith, e, q, h))
      | inr q ↦ (
        s,
        e,
        (λ w. ground (arith, eq_iff s "", w, q)),
        verify_with-IsVerified false p token (shared s) (resolve_algorithms p false) claims
            (resolve_algorithms-IsSafe p false) (ground (arith, e, q, h)),
      )
    ]
  ]
