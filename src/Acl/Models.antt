-- ===== src/Acl/Models.antt =====
-- modules/acl/models.ts and the context of auth-match.ts. A field that may be absent or null is an
-- `Option`; the two are never told apart.
use nestjs_amqp.Prelude.{String, Option, List}

pub record AclAction : Type 0 where
  pub name : String
  pub description : Option String

pub record AclRole : Type 0 where
  pub name : String
  pub description : Option String
  pub actions : List String

pub record AclGrant : Type 0 where
  pub id : Option String
  pub user_id : String
  pub resource_id : Option String
  pub company_id : Option String
  pub friendly_name : Option String
  pub roles : List String

pub record AclResource : Type 0 where
  pub resource_id : Option String
  pub actions : List String
  pub friendly_name : Option String

pub record AclResourceGroup : Type 0 where
  pub company_id : Option String
  pub resources : List AclResource

pub record AclResourceContext : Type 0 where
  pub company_id : Option String
  pub resource_id : Option String
