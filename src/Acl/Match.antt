-- ===== src/Acl/Match.antt =====
-- modules/acl/auth-match.ts: when a grant covers the resource of a request.
use nestjs_amqp.Prelude.{
  String, Bool, true, false, ◌&&◌, Option, none, some, ◌==◌, if◌then◌else◌, ◌≡◌, ◌↔◌, arith, eq_iff,
}
use nestjs_amqp.Acl.Models.{AclGrant, AclResourceContext}

-- null, undefined and '' are one value
unfoldable pub norm : Option String → Option String
norm none = none
norm (some v) = if v == "" then none else some v

-- `===` on two values that are strings or null
abbrev pub same : Option String → Option String → Bool
same none none = true
same none (some b) = false
same (some a) none = false
same (some a) (some b) = a == b

-- ctx?.companyId
abbrev pub ctx_company : Option AclResourceContext → Option String
ctx_company none = none
ctx_company (some ctx) = ctx.company_id

-- ctx?.resourceId
abbrev pub ctx_resource : Option AclResourceContext → Option String
ctx_resource none = none
ctx_resource (some ctx) = ctx.resource_id

unfoldable pub grant_matches_resource : AclGrant → Option AclResourceContext → Bool
grant_matches_resource grant ctx =
    same (norm grant.company_id) (norm (ctx_company ctx))
    && same (norm grant.resource_id) (norm (ctx_resource ctx))

pub same_iff : (a b : Option String) → (same a b ≡ true) ↔ (a ≡ b)
same_iff none none = ground arith
same_iff none (some b) = ground arith
same_iff (some a) none = ground arith
same_iff (some a) (some b) = ground (arith, eq_iff a b)

-- A grant matches exactly when both ids agree, where absent and empty ids are the same.
pub grant_matches_resource_iff :
    (grant : AclGrant) (ctx : Option AclResourceContext)
    → (grant_matches_resource grant ctx ≡ true) ↔ (
        (norm grant.company_id ≡ norm (ctx_company ctx))
        × (norm grant.resource_id ≡ norm (ctx_resource ctx)))
unfolding grant_matches_resource
grant_matches_resource_iff grant ctx = ground (
  arith,
  same_iff (norm grant.company_id) (norm (ctx_company ctx)),
  same_iff (norm grant.resource_id) (norm (ctx_resource ctx)),
)
