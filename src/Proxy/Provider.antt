-- ===== src/Proxy/Provider.antt =====
-- modules/broker/config/handler-auth.config.ts and modules/proxy/services/auth-provider-registry.
-- service.ts: the authentication providers of the gateway, from YAML and from the database.
use nestjs_amqp.Prelude.{
  ℕ, String, Bool, false, not, Option, none, some, List, [], ◌∷◌, map, ◌==◌, if◌then◌else◌, find,
  length,
}
use nestjs_amqp.Prelude.Result.{Result, ok, err}
use nestjs_amqp.JsMap.{JsMap, set}

-- HandlerAuthConfig; the fields that no code reads are left out
pub record Provider : Type 0 where
  pub name : String
  pub kind : String
  pub issuer : Option String
  pub audience : Option String
  pub algorithms : Option (List String)
  pub secret : Option String
  pub jwks_uri : Option String
  pub https_allow_unauthorized : Option Bool
  pub client_secret : Option String
  pub client_id : Option String
  pub uid_claim : Option String
  pub jwt_map : Option (List String)
  pub header_prefix : Option String

-- a text that is there and not empty
abbrev pub given : Option String → Bool
given none = false
given (some s) = not (s == "")

-- a client of jwks-rsa, by the options it was built with
pub record JwksClient : Type 0 where
  pub jwks_uri : String
  pub reject_unauthorized : Bool

-- the providers in use, and JwtService's cache of clients by provider name
pub record Providers : Type 0 where
  pub current : List Provider
  pub clients : JsMap JwksClient

abbrev named : String → Provider → Bool
named name p = p.name == name

unfoldable pub find_provider : List Provider → String → Option Provider
find_provider current name = if name == "" then none else find (named name) current

unfoldable pub by_name : JsMap Provider → List Provider → JsMap Provider
by_name m [] = m
by_name m (p ∷ ps) = by_name (if p.name == "" then m else set m p.name p) ps

-- `db` is what the database source replies, or none if there is no source
unfoldable pub merged : List Provider → List Provider → List Provider
unfolding by_name
merged yaml db = map (λ (e : String × Provider). e.1) (by_name (by_name [] yaml) db)

unfoldable pub reload_providers :
    List Provider → Option (Result (List Provider)) → Providers → Providers × ℕ
reload_providers yaml (some (err e)) st = (st, length st.current)
reload_providers yaml none st =
    (record { current = merged yaml []; clients = [] }, length (merged yaml []))
reload_providers yaml (some (ok db)) st =
    (record { current = merged yaml db; clients = [] }, length (merged yaml db))
