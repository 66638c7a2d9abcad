-- ===== src/Proxy/Jwt.antt =====
-- modules/proxy/services/jwt.service.ts: which algorithms a token may be signed with, and its
-- verification. `verify` of jsonwebtoken, with the key that a client of jwks-rsa fetches, is a
-- parameter; it calls back with the payload or with an error (none).
pub mod Algorithms
use Prim.Native.String
use Prim.Native.Char.{code}
use nestjs_amqp.Prelude.{
  ℕ, ◌+◌, String, Bool, true, false, ◌&&◌, ◌||◌, not, Option, none, some, List, [], ◌∷◌, ◌==◌,
  if◌then◌else◌, any, nat_eq,
}
use nestjs_amqp.JsMap.{JsMap, get, set}
use nestjs_amqp.Admin.Manifest.{Json}
use nestjs_amqp.Proxy.Provider.{Provider, Providers, JwksClient, given}

-- the second argument of `verify`
pub data KeySource : Type 0 where
  shared : String → KeySource
  fetched : JwksClient → KeySource

pub record VerifyOptions : Type 0 where
  pub issuer : Option String
  pub audience : Option String
  pub algorithms : List String

-- the payload of a token
abbrev pub Claims : Type 0
Claims = JsMap Json

-- a pattern of letters, given by their codes in upper case, at the beginning of a text: /^hs/i
abbrev begins_with : List ℕ → String → Bool
begins_with [] s = true
begins_with (n ∷ ns) String.[] = false
begins_with (n ∷ ns) (String.◌∷◌ c s) =
    let rest = begins_with ns s in (nat_eq (code c) n || nat_eq (code c) (n + 32)) && rest

-- the same pattern as the whole text: /^none$/i
abbrev reads : List ℕ → String → Bool
reads [] String.[] = true
reads [] (String.◌∷◌ c s) = false
reads (n ∷ ns) String.[] = false
reads (n ∷ ns) (String.◌∷◌ c s) =
    let rest = reads ns s in (nat_eq (code c) n || nat_eq (code c) (n + 32)) && rest

unfoldable pub is_none_algorithm : String → Bool
is_none_algorithm = reads (78 ∷ 79 ∷ 78 ∷ 69 ∷ [])

unfoldable pub is_symmetric : String → Bool
is_symmetric = begins_with (72 ∷ 83 ∷ [])

-- resolveAlgorithms on a list that is there and not empty
unfoldable pub safe_algorithms : List String → Bool → Option (List String)
safe_algorithms algs require_asymmetric =
    if any is_none_algorithm algs
    then none
    else if require_asymmetric && any is_symmetric algs
    then none
    else some algs

unfoldable pub resolve_algorithms : Provider → Bool → Option (List String)
resolve_algorithms p require_asymmetric = elim p.algorithms [
  | none ↦ none
  | some [] ↦ none
  | some (a ∷ more) ↦ safe_algorithms (a ∷ more) require_asymmetric
]

unfoldable pub new_client : Provider → String → JwksClient
new_client p uri = record {
  jwks_uri = uri;
  reject_unauthorized = elim p.https_allow_unauthorized [ some true ↦ false | _ ↦ true ];
}

-- the cached client of a jwks provider, or a new one
abbrev cached_or_new :
    Option JwksClient → Provider → String → JsMap JwksClient → JwksClient × JsMap JwksClient
cached_or_new (some client) p uri clients = (client, clients)
cached_or_new none p uri clients = (new_client p uri, set clients p.name (new_client p uri))

abbrev client_at :
    Option String → Provider → JsMap JwksClient → Option JwksClient × JsMap JwksClient
client_at none p clients = (none, clients)
client_at (some uri) p clients =
    if uri == ""
    then (none, clients)
    else let (client, clients') = cached_or_new (get clients p.name) p uri clients in
      (some client, clients')

unfoldable pub jwks_client_for : Provider → JsMap JwksClient → Option JwksClient × JsMap JwksClient
jwks_client_for p clients =
    if p.kind == "jwks" then client_at p.jwks_uri p clients else (none, clients)

-- onModuleInit builds the clients of the YAML providers
unfoldable pub build_clients : List Provider → JsMap JwksClient → JsMap JwksClient
build_clients [] clients = clients
build_clients (p ∷ ps) clients = build_clients ps (jwks_client_for p clients).1

module _ (verify : String → KeySource → VerifyOptions → Option Claims) where
  unfoldable pub verify_with :
      Provider → Option String → KeySource → Option (List String) → Option Claims
  verify_with p token key none = none
  verify_with p none key (some algs) = none
  verify_with p (some token) key (some algs) =
      if token == ""
      then none
      else verify token key (record { issuer = p.issuer; audience = p.audience; algorithms = algs })

  abbrev verify_fetched : Option JwksClient → Provider → Option String → Option Claims
  verify_fetched none p token = none
  verify_fetched (some client) p token =
      verify_with p token (fetched client) (resolve_algorithms p true)

  unfoldable pub verify_token_jwks :
      Provider → Option String → JsMap JwksClient → Option Claims × JsMap JwksClient
  verify_token_jwks p token clients =
      let (client, clients') = jwks_client_for p clients in
      (verify_fetched client p token, clients')

  unfoldable pub verify_token_secret : Provider → Option String → Option Claims
  verify_token_secret p token = elim p.secret [
    | none ↦ none
    | some s ↦ if s == "" then none else verify_with p token (shared s) (resolve_algorithms p false)
  ]
