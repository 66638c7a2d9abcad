-- ===== src/Proxy/Auth.antt =====
-- modules/proxy/services/http-auth-handler.service.ts: who sends a request, and what that identity
-- may do. `verify` of jsonwebtoken, the decoding of base64, `trim`, `toUpperCase` and the ACL
-- service are parameters. A call that throws rejects the promise of the caller.
mod Data
pub mod Gate
pub mod Identity
pub mod Distinct
unfoldable pub use Data.*
use nestjs_amqp.Prelude.{
  ℕ, zero, suc, String, Bool, true, false, ◌&&◌, ◌||◌, not, Option, none, some, List, [], ◌∷◌, ◌==◌,
  if◌then◌else◌, template, split, is_empty,
}
use nestjs_amqp.Prelude.Result.{AppError, Result, ok, err, error, ◌>>=◌}
use nestjs_amqp.JsMap.{JsMap, get, set}
use package.text.Mathlib.Text.{starts_with}
use nestjs_amqp.Admin.Manifest.{Json, null, boolean, number, text, truthy}
use nestjs_amqp.Acl.Service.{ActionArg, one, many, to_list}
use nestjs_amqp.Proxy.Provider.{Provider, Providers, JwksClient, given, find_provider}
use nestjs_amqp.Proxy.Jwt.{KeySource, VerifyOptions, Claims, verify_token_jwks, verify_token_secret}

unfoldable pub check_string_compare : Provider → Option String → ProcessedAuthData
check_string_compare p auth_header =
    if not (given p.secret)
    then accepted
    else if not (given p.header_prefix)
    then denied
    else elim auth_header [
      | none ↦ denied
      | some h ↦
          if h == shown p.secret
          then set (set denied (header p.header_prefix "TOKEN") (text h)) "success" (boolean true)
          else denied
    ]

-- `path.actions?.length`
unfoldable pub has_actions : Option ActionArg → Bool
has_actions none = false
has_actions (some a) = elim a [ one s ↦ not (s == "") | many ss ↦ not (is_empty ss) ]

-- the first two parts of `credentials.split(':')`
abbrev basic_identity : Provider → List String → ProcessedAuthData
basic_identity p (user ∷ password ∷ more) =
    if password == shown p.client_secret && (not (given p.client_id) || user == shown p.client_id)
    then set
        (set (set denied (header p.header_prefix "USERNAME") (text user))
          (header p.header_prefix "USERID") (text user))
        "success" (boolean true)
    else denied
basic_identity p parts = denied

abbrev type_error : AppError
type_error = error "TypeError" "undefined"

-- what the mapping of claims does with one entry of jwtMap, split at ':'
abbrev map_claim :
    (String → String)
    → Provider
    → Claims
    → List String
    → ProcessedAuthData
    → Result ProcessedAuthData
map_claim dest_of p decoded [] out = ok out
map_claim dest_of p decoded (source ∷ parts) out =
    if truthy (get decoded source)
    then (elim parts [
      | [] ↦ err type_error
      | dest ∷ more ↦
          ok (set out (header p.header_prefix (dest_of dest)) (or_null (get decoded source)))
    ])
    else ok out
  where
    or_null : Option Json → Json
    or_null none = null
    or_null (some j) = j

-- the loop over jwtMap
abbrev pub map_entries :
    (String → String)
    → Provider
    → Claims
    → List String
    → ProcessedAuthData
    → Result ProcessedAuthData
map_entries dest_of p decoded [] out = ok out
map_entries dest_of p decoded (entry ∷ entries) out =
    map_claim dest_of p decoded (split 58 entry) out >>= λ out'.
    map_entries dest_of p decoded entries out'

-- `dest_of` is `dest.trim().toUpperCase()`
unfoldable pub map_claims : (String → String) → Provider → Option Claims → Result ProcessedAuthData
map_claims dest_of p none = ok denied
map_claims dest_of p (some decoded) = elim p.jwt_map [
  | none ↦ ok accepted
  | some entries ↦ map_entries dest_of p decoded entries accepted
]

-- the platform and the packages that authentication calls
pub record Platform : Type 0 where
  pub verify : String → KeySource → VerifyOptions → Option Claims
  pub dest_of : String → String
  pub decode_base64 : String → String

-- `Basic ` and then the credentials
abbrev basic_credentials : Platform → Provider → Option String → Result ProcessedAuthData
basic_credentials e p none = err type_error
basic_credentials e p (some credentials) =
    ok (basic_identity p (split 58 (e.decode_base64 credentials)))

unfoldable pub check_basic_auth : Platform → Provider → Option String → Result ProcessedAuthData
check_basic_auth e p none = ok denied
check_basic_auth e p (some h) =
    if not (starts_with h "Basic ")
    then ok denied
    else if not (given p.client_secret)
    then ok accepted
    else basic_credentials e p (at (split 32 h) 1)

unfoldable pub verify_token :
    Platform → Provider → Option String → JsMap JwksClient → Option Claims × JsMap JwksClient
verify_token e p token clients =
    if not (given token)
    then (none, clients)
    else if p.kind == "jwt"
    then (verify_token_secret e.verify p token, clients)
    else if p.kind == "jwks"
    then verify_token_jwks e.verify p token clients
    else (none, clients)

-- `req.headers.authorization?.split(" ")[1]`
unfoldable pub bearer : Option String → Option String
bearer none = none
bearer (some h) = at (split 32 h) 1

unfoldable pub check_jwt :
    Platform
    → Provider
    → Option String
    → JsMap JwksClient
    → Result ProcessedAuthData × JsMap JwksClient
check_jwt e p auth_header clients =
    let (decoded, clients') = verify_token e p (bearer auth_header) clients in
    (map_claims e.dest_of p decoded, clients')

abbrev by_kind :
    Platform
    → Provider
    → Option String
    → JsMap JwksClient
    → Result ProcessedAuthData × JsMap JwksClient
by_kind e p auth_header clients =
    if p.kind == "basic"
    then (check_basic_auth e p auth_header, clients)
    else if p.kind == "jwt" || p.kind == "jwks"
    then check_jwt e p auth_header clients
    else if p.kind == "str-compare"
    then (ok (check_string_compare p auth_header), clients)
    else (ok denied, clients)

abbrev by_provider :
    Platform
    → Option Provider
    → Option String
    → JsMap JwksClient
    → Result ProcessedAuthData × JsMap JwksClient
by_provider e none auth_header clients = (ok denied, clients)
by_provider e (some p) auth_header clients = by_kind e p auth_header clients

unfoldable pub process_auth_data :
    Platform → Request → PathDefinition → Providers → Result ProcessedAuthData × JsMap JwksClient
process_auth_data e req path st =
    if not (given path.auth)
    then (ok denied, st.clients)
    else by_provider e (find_provider st.current (shown path.auth))
        (get req.headers "authorization") st.clients

-- IAclRoleService.checkAction, if it is provided
abbrev pub Acl : Type 0
Acl = Option (Json → Option ResourceContext → List String → Result Bool)

-- the end of checkActionsForClaims: ask the ACL service about the user that the claims name
abbrev ask :
    (Json → Option ResourceContext → List String → Result Bool)
    → Option Json
    → Option ResourceContext
    → List String
    → Result Bool
ask acl none ctx actions = ok false
ask acl (some uid) ctx actions = if truthy (some uid) then acl uid ctx actions else ok false

unfoldable pub uid_of : Provider → ProcessedAuthData → Option Json
uid_of p claims = get claims (template (shown p.header_prefix ∷ shown p.uid_claim ∷ []))

unfoldable pub check_actions_for_claims :
    Acl → Provider → ProcessedAuthData → List String → Option ResourceContext → Result Bool
check_actions_for_claims acl p claims actions ctx =
    if is_empty actions
    then ok true
    else if not (p.kind == "jwt" || p.kind == "jwks")
    then ok false
    else if not (given p.uid_claim)
    then ok false
    else elim acl [ none ↦ ok false | some check ↦ ask check (uid_of p claims) ctx actions ]

abbrev pub actions_of : Option ActionArg → List String
actions_of none = []
actions_of (some a) = to_list a

unfoldable pub check_actions :
    Acl → Providers → ProcessedAuthData → PathDefinition → Option ResourceContext → Result Bool
check_actions acl st claims path ctx =
    if not (has_actions path.actions)
    then ok true
    else if not (given path.auth)
    then ok false
    else elim (find_provider st.current (shown path.auth)) [
      | none ↦ ok false
      | some p ↦ check_actions_for_claims acl p claims (actions_of path.actions) ctx
    ]
