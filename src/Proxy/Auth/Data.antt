-- ===== src/Proxy/Auth/Data.antt =====
-- services/http-auth-handler.service.ts: a request, a route, and what is read from them.
use nestjs_amqp.Prelude.{
  ℕ, zero, suc, String, Bool, true, false, Option, none, some, List, [], ◌∷◌, template,
}
use nestjs_amqp.JsMap.{JsMap, get}
use nestjs_amqp.Admin.Manifest.{Json, null, boolean}
use nestjs_amqp.Acl.Service.{ActionArg}

-- An HTTP request as Express hands it over. Header names are in the case that Node gives them.
pub record Request : Type 0 where
  pub method : String
  pub headers : JsMap String
  pub params : JsMap Json
  pub query : JsMap Json
  pub body : Option (JsMap Json)
  pub raw_body : Json
  pub files : Option Json

-- PathDefinition; a flag that is set is `some true`
pub record PathDefinition : Type 0 where
  pub name : Option String
  pub method : String
  pub path : String
  pub parse_raw : Bool
  pub topic : String
  pub action : String
  pub success_status_code : Option ℕ
  pub data_source : String
  pub mode : String
  pub auth : Option String
  pub allow_anonymous : Bool
  pub actions : Option ActionArg
  pub timeout : Option ℕ
  pub binary : Bool
  pub headers : JsMap Json
  pub forward_headers : JsMap String
  pub redirect : Option ℕ

-- `success` beside the claims, under one object, as in the source
abbrev pub ProcessedAuthData : Type 0
ProcessedAuthData = JsMap Json

abbrev pub denied : ProcessedAuthData
denied = ("success", boolean false) ∷ []

abbrev pub accepted : ProcessedAuthData
accepted = ("success", boolean true) ∷ []

-- `${v}` for a text that may be undefined
abbrev pub shown : Option String → String
shown none = "undefined"
shown (some s) = s

-- `a ?? b`
abbrev pub or_nullish : Option Json → Option Json → Option Json
or_nullish none d = d
or_nullish (some null) d = d
or_nullish (some j) d = some j

-- xs[i]
abbrev pub at {ℓ} : {A : Type ℓ} → List A → ℕ → Option A
at [] i = none
at (x ∷ xs) zero = some x
at (x ∷ xs) (suc i) = at xs i

abbrev pub header : Option String → String → String
header prefix name = template (shown prefix ∷ name ∷ [])

-- AclResourceContext, before the ACL service reads its texts
pub record ResourceContext : Type 0 where
  pub company_id : Option Json
  pub resource_id : Option Json

unfoldable pub extract_resource_context : Request → ResourceContext
extract_resource_context req = record {
  company_id = field_of "companyId";
  resource_id = field_of "resourceId";
}
  where
    of_body : Option (JsMap Json) → String → Option Json
    of_body none k = none
    of_body (some b) k = get b k

    field_of : String → Option Json
    field_of k = or_nullish (get req.params k) (or_nullish (get req.query k) (of_body req.body k))
