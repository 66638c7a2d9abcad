-- ===== src/Proxy/Auth/Identity.antt =====
-- The authentication of a request by its provider.
use nestjs_amqp.Prelude.{
  String, Bool, true, false, ◌||◌, Option, none, some, List, [], ◌∷◌, ◌==◌, ◌≡◌, ◌≢◌, ◌⊎◌, inl, inr,
  refl, arith, eq_iff, Bool-cases, split,
}
use nestjs_amqp.Prelude.Result.{ok}
use nestjs_amqp.JsMap.{JsMap, get}
use text.Mathlib.Text.{starts_with}
use nestjs_amqp.Admin.Manifest.{truthy}
use nestjs_amqp.Proxy.Provider.{Provider, Providers, JwksClient, given, find_provider}
use nestjs_amqp.Proxy.Jwt.{
  shared, fetched, Claims, verify_token_jwks, verify_token_secret, jwks_client_for,
}
use nestjs_amqp.Proxy.Jwt.Algorithms.{
  IsVerified, verify_token_jwks-IsVerified, verify_token_secret-IsVerified,
}
use nestjs_amqp.Proxy.Auth.{
  Request, PathDefinition, ProcessedAuthData, Platform, bearer, verify_token, check_jwt, map_claims,
  check_basic_auth, check_string_compare, process_auth_data, by_provider, by_kind,
  basic_credentials, basic_identity, shown, at,
}

-- The text that is given.
abbrev IsText : Option String → Option String → Type 0
IsText wanted got = (given wanted ≡ true) × (got ≡ some (shown wanted))

module _ (e : Platform) (auth_header : Option String) where
  abbrev IsJwt : Provider → Type 0
  IsJwt p =
      (s : String) × (claims : Claims) × (p.secret ≡ some s)
      × (s ≢ "")
      × IsVerified e.verify false p (bearer auth_header) (shared s) claims

  abbrev IsJwks : Provider → JsMap JwksClient → Type 0
  IsJwks p clients =
      (c : JwksClient) × (claims : Claims) × ((jwks_client_for p clients).0 ≡ some c)
      × IsVerified e.verify true p (bearer auth_header) (fetched c) claims

  -- the password that the header carries is the client's secret
  abbrev IsBasic : Provider → Type 0
  IsBasic p =
      (h : String) × (credentials : String) × (auth_header ≡ some h)
      × (starts_with h "Basic " ≡ true)
      × (at (split 32 h) 1 ≡ some credentials)
      × (at (split 58 (e.decode_base64 credentials)) 1 ≡ some (shown p.client_secret))

  -- The provider has accepted the request, or it is one that has no secret to compare with.
  abbrev pub IsAccepted : Provider → JsMap JwksClient → Type 0
  IsAccepted p clients =
      ((p.kind ≡ "jwt") × IsJwt p)
      ⊎ (((p.kind ≡ "jwks") × IsJwks p clients)
          ⊎ (((p.kind ≡ "basic") × ((given p.client_secret ≡ false) ⊎ IsBasic p))
              ⊎ ((p.kind ≡ "str-compare")
                  × ((given p.secret ≡ false) ⊎ (auth_header ≡ some (shown p.secret))))))

  abbrev succeeds : ProcessedAuthData → Bool
  succeeds a = truthy (get a "success")

  pub map_claims-decoded :
      (p : Provider) (decoded : Option Claims) (a : ProcessedAuthData)
      → map_claims e.dest_of p decoded ≡ ok a
      → succeeds a ≡ true
      → (claims : Claims) × (decoded ≡ some claims)
  unfolding map_claims
  map_claims-decoded p none a h s = absurd (cc)
  map_claims-decoded p (some claims) a h s = (claims, refl)

  pub verify_token-cases :
      (p : Provider) (token : Option String) (clients : JsMap JwksClient) (claims : Claims)
      → (verify_token e p token clients).0 ≡ some claims
      → ((p.kind ≡ "jwt") × (verify_token_secret e.verify p token ≡ some claims))
        ⊎ ((p.kind ≡ "jwks") × ((verify_token_jwks e.verify p token clients).0 ≡ some claims))
  unfolding verify_token
  verify_token-cases p token clients claims h =
      ground (arith, h, eq_iff p.kind "jwt", eq_iff p.kind "jwks")

  check_jwt-IsAccepted :
      (p : Provider) (clients : JsMap JwksClient) (a : ProcessedAuthData)
      → (check_jwt e p auth_header clients).0 ≡ ok a
      → succeeds a ≡ true
      → IsAccepted p clients
  unfolding check_jwt
  check_jwt-IsAccepted p clients a h s =
      let (claims, d) =
        map_claims-decoded p (verify_token e p (bearer auth_header) clients).0 a h s in
      elim (verify_token-cases p (bearer auth_header) clients claims d) [
        | inl (k, v) ↦
            let (secret, q, n, w) =
              verify_token_secret-IsVerified e.verify p (bearer auth_header) claims v in
            inl (k, (secret, claims, q, n, w))
        | inr (k, v) ↦
            let (c, q, w) =
              verify_token_jwks-IsVerified e.verify p (bearer auth_header) clients claims v in
            inr (inl (k, (c, claims, q, w)))
      ]

  basic_identity-password :
      (p : Provider) (parts : List String)
      → succeeds (basic_identity p parts) ≡ true
      → at parts 1 ≡ some (shown p.client_secret)
  basic_identity-password p [] s = absurd (cc)
  basic_identity-password p (user ∷ []) s = absurd (cc)
  basic_identity-password p (user ∷ password ∷ more) s =
      ground (arith, s, eq_iff password (shown p.client_secret))

  basic_credentials-password :
      (p : Provider) (c : Option String) (a : ProcessedAuthData)
      → basic_credentials e p c ≡ ok a
      → succeeds a ≡ true
      → (credentials : String) × (c ≡ some credentials)
        × (at (split 58 (e.decode_base64 credentials)) 1 ≡ some (shown p.client_secret))
  basic_credentials-password p none a h s = absurd (cc)
  basic_credentials-password p (some c) a h s =
      (c, refl, basic_identity-password p (split 58 (e.decode_base64 c)) (cc))

  check_basic_auth-IsBasic :
      (p : Provider) (o : Option String) (a : ProcessedAuthData)
      → auth_header ≡ o
      → check_basic_auth e p o ≡ ok a
      → succeeds a ≡ true
      → (given p.client_secret ≡ false) ⊎ IsBasic p
  unfolding check_basic_auth
  check_basic_auth-IsBasic p none a q h s = absurd (cc)
  check_basic_auth-IsBasic p (some t) a q h s = elim (Bool-cases (starts_with t "Basic ")) [
    | inr b ↦ absurd (ground (arith, b, h, s))
    | inl b ↦ elim (Bool-cases (given p.client_secret)) [
      | inr g ↦ inl g
      | inl g ↦
          let h' : basic_credentials e p (at (split 32 t) 1) ≡ ok a = ground (arith, b, g, h) in
          let (c, f, m) = basic_credentials-password p (at (split 32 t) 1) a h' s in
          inr (t, c, q, b, f, m)
    ]
  ]

  check_string_compare-secret :
      (p : Provider) (o : Option String)
      → auth_header ≡ o
      → succeeds (check_string_compare p o) ≡ true
      → (given p.secret ≡ false) ⊎ (auth_header ≡ some (shown p.secret))
  unfolding check_string_compare
  check_string_compare-secret p none q s = ground (arith, s)
  check_string_compare-secret p (some t) q s = ground (arith, s, q, eq_iff t (shown p.secret))

  by_kind-IsAccepted :
      (p : Provider) (clients : JsMap JwksClient) (a : ProcessedAuthData)
      → (by_kind e p auth_header clients).0 ≡ ok a
      → succeeds a ≡ true
      → IsAccepted p clients
  by_kind-IsAccepted p clients a h s = elim (Bool-cases (p.kind == "basic")) [
    | inl b ↦ inr (
        inr (
          inl (
            (eq_iff p.kind "basic").0 b,
            check_basic_auth-IsBasic p auth_header a refl (ground (arith, b, h)) s,
          )))
    | inr b ↦ elim (Bool-cases (p.kind == "jwt" || p.kind == "jwks")) [
      | inl j ↦ check_jwt-IsAccepted p clients a (ground (arith, b, j, h)) s
      | inr j ↦ elim (Bool-cases (p.kind == "str-compare")) [
        | inl c ↦
            let h' : ok (check_string_compare p auth_header) ≡ ok a = ground (arith, b, j, c, h) in
            inr (
              inr (
                inr (
                  (eq_iff p.kind "str-compare").0 c,
                  check_string_compare-secret p auth_header refl (cc),
                )))
        | inr c ↦ absurd (ground (arith, b, j, c, h, s))
      ]
    ]
  ]

by_provider-IsAccepted :
    (e : Platform) (o : Option Provider) (auth_header : Option String) (clients : JsMap JwksClient)
    (a : ProcessedAuthData)
    → (by_provider e o auth_header clients).0 ≡ ok a
    → truthy (get a "success") ≡ true
    → (p : Provider) × (o ≡ some p) × IsAccepted e auth_header p clients
by_provider-IsAccepted e none auth_header clients a h s = absurd (cc)
by_provider-IsAccepted e (some p) auth_header clients a h s =
    (p, refl, by_kind-IsAccepted e auth_header p clients a h s)

-- The provider that the path names is one in use, and has accepted the request.
abbrev pub IsAuthenticated : Platform → Request → PathDefinition → Providers → Type 0
IsAuthenticated e req path st =
    (p : Provider) × (find_provider st.current (shown path.auth) ≡ some p)
    × IsAccepted e (get req.headers "authorization") p st.clients

-- A request is marked as successful only if the provider that its path names is one in use and has
-- accepted it: a token was verified with the provider's key by safe algorithms, a password or a text
-- is its secret, or it is a basic or a comparing provider without a secret.
pub process_auth_data-IsAuthenticated :
    (e : Platform) (req : Request) (path : PathDefinition) (st : Providers) (a : ProcessedAuthData)
    → (process_auth_data e req path st).0 ≡ ok a
    → truthy (get a "success") ≡ true
    → IsAuthenticated e req path st
unfolding process_auth_data
process_auth_data-IsAuthenticated e req path st a h s = elim (Bool-cases (given path.auth)) [
  | inr g ↦ absurd (ground (arith, g, h, s))
  | inl g ↦
      by_provider-IsAccepted e (find_provider st.current (shown path.auth))
        (get req.headers "authorization") st.clients a (ground (arith, g, h)) s
]
