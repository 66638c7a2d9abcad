-- ===== src/Acl/Management/Data.antt =====
-- acl-management.service.ts: the database, the messages and the options of the service.
use nestjs_amqp.Prelude.{String, Bool, Option, none, some, List}
use nestjs_amqp.Prelude.Result.{Result}
use nestjs_amqp.Acl.Models.{AclAction, AclRole, AclGrant, AclResourceContext}
use nestjs_amqp.Acl.Service.{Clock}

-- the fields that updateById sets; the names are not among those of a revoke
pub record GrantNames : Type 0 where
  pub company_id : Option String
  pub friendly_name : Option String

pub record GrantPatch : Type 0 where
  pub roles : List String
  pub names : Option GrantNames

-- the calls of the three repositories that the service makes
pub record Database : Type 1 where
  pub Db : Type 0
  pub list_roles : Db → Result (List AclRole)
  pub grants_of : Db → String → Result (List AclGrant)
  pub insert_grant : Db → AclGrant → Result AclGrant × Db
  pub update_grant : Db → Option String → GrantPatch → Result AclGrant × Db
  pub remove_grant : Db → Option String → Result AclGrant × Db
  pub roles_named : Db → List String → Result (List AclRole)
  pub actions_named : Db → List String → Result (List AclAction)
  pub upsert_role : Db → AclRole → Result AclRole × Db
  pub remove_role : Db → String → Result AclRole × Db
  pub upsert_action : Db → AclAction → Result AclAction × Db
  pub remove_action : Db → String → Result AclAction × Db

-- AclInvalidationMessage
pub data Invalidation : Type 0 where
  one_user : String → Invalidation
  all_users : Invalidation

pub record Options : Type 0 where
  pub role_mgmt_action : String
  pub role_system_action : String
  pub broadcasts : Bool

-- when a check runs: its readings of the clock, and whether its deadline passes
pub record Moment : Type 0 where
  pub clock : Clock
  pub late : Bool

abbrev pub or_absent : Option String → Option String → Option String
or_absent none b = b
or_absent (some a) b = some a

abbrev pub context : Option String → Option String → AclResourceContext
context company_id resource_id = record { company_id = company_id; resource_id = resource_id }
