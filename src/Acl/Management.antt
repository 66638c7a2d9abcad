-- ===== src/Acl/Management.antt =====
-- modules/acl/services/acl-management.service.ts: grants, roles and actions are changed, and the
-- cached decisions that the change outdates are dropped, here and (acl-invalidation.service.ts) on
-- the other instances. The database is the application's: a parameter, whose calls may reject.
mod Data
pub mod Gate
pub mod Effects
mod Tests
unfoldable pub use Data.*
use nestjs_amqp.Prelude.{
  String, Bool, true, false, not, Option, none, some, List, [], ◌∷◌, ◌++◌, ◌==◌, if◌then◌else◌,
  template, any, find, select, includes, is_empty, dedup, join,
}
use nestjs_amqp.Prelude.Result.{AppError, Result, ok, err, bad_request, forbidden}
use nestjs_amqp.Acl.Models.{AclAction, AclRole, AclGrant, AclResourceContext}
use nestjs_amqp.Acl.Match.{grant_matches_resource}
use nestjs_amqp.Acl.Cache.{CacheStore, invalidate, invalidate_local_ram}
use nestjs_amqp.Acl.Service.{AclState, Replies, Clock, one, check_action, invalidate_roles_cache}

module _ (s : CacheStore) (d : Database) (options : Options) where
  open d use {
    Db, list_roles, grants_of, insert_grant, update_grant, remove_grant, roles_named, actions_named,
    upsert_role, remove_role, upsert_action, remove_action,
  }

  -- the database, the caches of this instance, and the messages sent to the others
  pub record Management : Type 0 where
    pub db : Db
    pub acl : AclState s
    pub sent : List Invalidation

  abbrev pub Op : Type 0 → Type 0
  Op A = Management → Result A × Management

  infixl 5 ◌and_then◌
  abbrev pub ◌and_then◌ :
      {A B : Type 0} → Result A × Management → (A → Op B) → Result B × Management
  (ok a, st) and_then f = f a st
  (err e, st) and_then f = (err e, st)

  -- a call of the database within an operation
  abbrev pub stored : {A : Type 0} → Management → Result A × Db → Result A × Management
  stored st (r, db) = (r, record st { db = db })

  abbrev pub reading : {A : Type 0} → Management → Result A → Result A × Management
  reading st r = (r, st)

  -- a rejected publish is logged
  unfoldable pub broadcast : Invalidation → Management → Management
  broadcast message st =
      if options.broadcasts then record st { sent = st.sent ++ message ∷ [] } else st

  unfoldable pub invalidate_user : String → Management → Management
  unfolding broadcast
  invalidate_user user_id st =
      let (cache, l2) = invalidate s st.acl.cache st.acl.l2 (some user_id) in
      broadcast (one_user user_id) (record st { acl = record st.acl { cache = cache; l2 = l2 } })

  unfoldable pub invalidate_all : Management → Management
  unfolding broadcast
  invalidate_all st =
      let (cache, l2) = invalidate s st.acl.cache st.acl.l2 none in
      broadcast all_users
        (record st { acl = invalidate_roles_cache s (record st.acl { cache = cache; l2 = l2 }) })

  -- what an instance does with the message of another: its own RAM only
  unfoldable pub apply : Invalidation → Management → Management
  apply (one_user user_id) st = record st {
    acl = record st.acl { cache = invalidate_local_ram st.acl.cache (some user_id) };
  }
  apply all_users st = record st {
    acl =
        invalidate_roles_cache s (record st.acl { cache = invalidate_local_ram st.acl.cache none });
  }

  abbrev pub checked : Management → Result Bool × AclState s → Result Bool × Management
  checked st (r, acl) = (r, record st { acl = acl })

  unfoldable pub check :
      String → Option AclResourceContext → String → Moment → Management → Result Bool × Management
  check user ctx action at st = checked st (
      check_action s st.acl user ctx (one action) at.clock
        (record { roles = list_roles st.db; grants = grants_of st.db; late = at.late }))

  abbrev pub not_allowed : String → AppError
  not_allowed verb = forbidden (
      template (
        "'" ∷ options.role_mgmt_action ∷ "' on the target resource, or the system-level '"
        ∷ options.role_system_action ∷ "', is required to " ∷ verb ∷ []))

  unfoldable pub assert_can_manage :
      String → Option String → Option String → String → Moment → Moment → Op Unit
  assert_can_manage current_user company_id resource_id verb at later st =
      check current_user (some (context company_id resource_id)) options.role_mgmt_action at st
      and_then λ manages st'.
          if manages
          then (ok tt, st')
          else (check current_user none options.role_system_action later st' and_then λ system st''.
              if system then (ok tt, st'') else (err (not_allowed verb), st''))

  abbrev all_known : String → List String → Result (Unit {0})
  all_known kind [] = ok tt
  all_known kind (m ∷ ms) =
      err (bad_request (template ("Unknown " ∷ kind ∷ ": " ∷ join ", " (m ∷ ms) ∷ [])))

  unfoldable pub assert_roles_exist : List String → Op Unit
  assert_roles_exist names st = reading st (roles_named st.db names) and_then λ found st'.
      reading st'
        (all_known "roles" (select (λ n. not (any (λ (r : AclRole). r.name == n) found)) names))

  unfoldable pub assert_actions_exist : List String → Op Unit
  assert_actions_exist names st = reading st (actions_named st.db names) and_then λ found st'.
      reading st'
        (all_known "actions" (select (λ n. not (any (λ (a : AclAction). a.name == n) found)) names))

  unfoldable pub find_grant : String → Option String → Option String → Op (Option AclGrant)
  find_grant user_id company_id resource_id st =
      reading st (grants_of st.db user_id) and_then λ all st'.
      (ok (find (λ g. grant_matches_resource g (some (context company_id resource_id))) all), st')

  -- the end of a mutation of one user: `invalidateUser`, then the result
  abbrev pub invalidating : {A : Type 0} → String → Result A × Management → Result A × Management
  invalidating user_id r = r and_then λ a st. (ok a, invalidate_user user_id st)

  abbrev pub merge_or_insert :
      String
      → List String
      → Option String
      → Option String
      → Option String
      → Option AclGrant
      → Op AclGrant
  merge_or_insert user_id roles resource_id company_id friendly_name none st = stored st (
      insert_grant st.db (record {
        id = none;
        user_id = user_id;
        resource_id = resource_id;
        company_id = company_id;
        friendly_name = friendly_name;
        roles = dedup roles;
      }))
  merge_or_insert user_id roles resource_id company_id friendly_name (some existing) st =
      stored st (
        update_grant st.db existing.id (record {
          roles = dedup (existing.roles ++ roles);
          names = some (record {
            company_id = or_absent company_id existing.company_id;
            friendly_name = or_absent friendly_name existing.friendly_name;
          });
        }))

  unfoldable pub apply_grant :
      String → List String → Option String → Option String → Option String → Op AclGrant
  apply_grant user_id roles resource_id company_id friendly_name st =
      if user_id == ""
      then (err (bad_request "userId is required"), st)
      else if is_empty roles
      then (err (bad_request "roles are required"), st)
      else (assert_roles_exist roles st and_then λ known st'.
          find_grant user_id company_id resource_id st' and_then λ existing st''.
          invalidating user_id
            (merge_or_insert user_id roles resource_id company_id friendly_name existing st''))

  abbrev shrink_or_remove : List String → AclGrant → Op AclGrant
  shrink_or_remove roles existing st =
      let remaining = select (λ r. not (includes roles r)) existing.roles in
      if is_empty remaining
      then stored st (remove_grant st.db existing.id)
      else stored st (update_grant st.db existing.id (record { roles = remaining; names = none }))

  abbrev revoke_from : String → List String → Option AclGrant → Op (Option AclGrant)
  revoke_from user_id roles none st = (ok none, st)
  revoke_from user_id roles (some existing) st =
      invalidating user_id (shrink_or_remove roles existing st) and_then λ g st'. (ok (some g), st')

  unfoldable pub apply_revoke :
      String → List String → Option String → Option String → Op (Option AclGrant)
  apply_revoke user_id roles resource_id company_id st =
      if user_id == ""
      then (err (bad_request "userId is required"), st)
      else if is_empty roles
      then (err (bad_request "roles are required"), st)
      else (find_grant user_id company_id resource_id st and_then λ existing st'.
          revoke_from user_id roles existing st')

  -- the caller of a gated call; '' when the header is absent
  abbrev pub caller : Option String → String
  caller none = ""
  caller (some u) = u

  unfoldable pub grant :
      String
      → List String
      → Option String
      → Option String
      → Option String
      → Option String
      → Moment
      → Moment
      → Op AclGrant
  grant user_id roles resource_id company_id friendly_name current_user at later st =
      assert_can_manage (caller current_user) company_id resource_id "grant" at later st
      and_then λ allowed st'. apply_grant user_id roles resource_id company_id friendly_name st'

  unfoldable pub revoke :
      String
      → List String
      → Option String
      → Option String
      → Option String
      → Moment
      → Moment
      → Op (Option AclGrant)
  revoke user_id roles resource_id company_id current_user at later st =
      assert_can_manage (caller current_user) company_id resource_id "revoke" at later st
      and_then λ allowed st'. apply_revoke user_id roles resource_id company_id st'

  -- the ungated calls of trusted services
  unfoldable pub admin_grant :
      String → List String → Option String → Option String → Option String → Op AclGrant
  admin_grant = apply_grant

  unfoldable pub admin_revoke :
      String → List String → Option String → Option String → Op (Option AclGrant)
  admin_revoke = apply_revoke

  -- the end of a mutation that concerns everyone
  abbrev pub invalidating_all : {A : Type 0} → Result A × Management → Result A × Management
  invalidating_all r = r and_then λ a st. (ok a, invalidate_all st)

  unfoldable pub upsert_action_named : String → Option String → Op AclAction
  upsert_action_named name description st =
      if name == ""
      then (err (bad_request "name is required"), st)
      else invalidating_all
          (stored st (upsert_action st.db (record { name = name; description = description })))

  unfoldable pub delete_action : String → Op AclAction
  delete_action name st =
      if name == ""
      then (err (bad_request "name is required"), st)
      else invalidating_all (stored st (remove_action st.db name))

  unfoldable pub upsert_role_named : String → List String → Option String → Op AclRole
  upsert_role_named name actions description st =
      if name == ""
      then (err (bad_request "name is required"), st)
      else if is_empty actions
      then (err (bad_request "actions are required"), st)
      else (assert_actions_exist actions st and_then λ known st'. invalidating_all (
          stored st' (
            upsert_role st'.db
              (record { name = name; description = description; actions = actions }))))

  unfoldable pub delete_role : String → Op AclRole
  delete_role name st =
      if name == ""
      then (err (bad_request "name is required"), st)
      else invalidating_all (stored st (remove_role st.db name))
