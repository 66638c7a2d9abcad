-- ===== src/Acl/Service.antt =====
-- modules/acl/services/acl.service.ts: the authorization check and the roles memo.
-- What the repositories reply, the clock, and whether the deadline passes first are arguments of
-- each call (`Replies`, `Clock`). The numbers in error messages are left out.
pub mod Decision
pub mod Keys
use nestjs_amqp.Prelude.{
  ℕ, zero, suc, ◌+◌, String, Bool, true, false, ◌||◌, Option, none, some, List, [], ◌∷◌, map, ◌==◌,
  if◌then◌else◌, ltb, template, any, select, includes, is_empty, join,
}
use nestjs_amqp.Prelude.Result.{AppError, Result, ok, err, error, ◌>>=◌}
use nestjs_amqp.Prelude.Sort.{sort_by, string_le}
use nestjs_amqp.Acl.Models.{AclRole, AclGrant, AclResourceContext}
use nestjs_amqp.Acl.Match.{grant_matches_resource}
use nestjs_amqp.Acl.Cache.{Cache, CacheStore, get_cached, set_cached}

-- the memo of the roles collection
pub record RolesMemo : Type 0 where
  pub roles : List AclRole
  pub exp : ℕ

-- `string | string[]`
pub data ActionArg : Type 0 where
  one : String → ActionArg
  many : List String → ActionArg

unfoldable pub to_list : ActionArg → List String
to_list (many actions) = actions
to_list (one action) = if action == "" then [] else action ∷ []

-- What the database answers during one check; null lists read as []. `late` says that the deadline
-- passes before the resolution settles.
pub record Replies : Type 0 where
  pub roles : Result (List AclRole)
  pub grants : String → Result (List AclGrant)
  pub late : Bool

-- the readings of `Date.now()` during one check, in order
pub record Clock : Type 0 where
  pub lookup : ℕ
  pub write_back : ℕ
  pub roles : ℕ
  pub store : ℕ

-- `ms <= 0` turns the deadline off
unfoldable pub with_timeout {ℓ} : {A : Type ℓ} → Result A → ℕ → Bool → String → Result A
with_timeout p zero late label = p
with_timeout p (suc ms) true label =
    err (error "Error" (template ("ACL " ∷ label ∷ " timed out" ∷ [])))
with_timeout p (suc ms) false label = p

memo_of : Result (List AclRole) → ℕ → Option RolesMemo → Result (List AclRole) × Option RolesMemo
memo_of (err e) exp memo = (err e, memo)
memo_of (ok roles) exp memo = (ok roles, some (record { roles = roles; exp = exp }))

unfoldable pub list_roles_cached :
    Option RolesMemo → ℕ → ℕ → Result (List AclRole) → Result (List AclRole) × Option RolesMemo
unfolding memo_of
list_roles_cached none ttl now reply = memo_of reply (now + ttl) none
list_roles_cached (some memo) ttl now reply =
    if ltb now memo.exp then (ok memo.roles, some memo) else memo_of reply (now + ttl) (some memo)

-- the names of the roles that include one of the actions
unfoldable pub role_names : List AclRole → List String → List String
role_names roles actions =
    map (λ r. r.name) (select (λ r. any (λ a. includes actions a) r.actions) roles)

unfoldable pub scoped : Option AclResourceContext → List AclGrant → List AclGrant
scoped none grants = grants
scoped (some ctx) grants = select (λ g. grant_matches_resource g (some ctx)) grants

-- the end of resolveAllowed: the grants are read only if some role includes the action
unfoldable pub allowed_by :
    Result (List AclGrant) → Option AclResourceContext → List String → Result Bool
allowed_by grants ctx [] = ok false
allowed_by grants ctx (n ∷ ns) = do
  gs ← grants
  ok (any (λ g. any (λ r. includes (n ∷ ns) r) g.roles) (scoped ctx gs))

unfoldable pub resolve_allowed :
    String
    → Option AclResourceContext
    → List String
    → Result (List AclRole)
    → (String → Result (List AclGrant))
    → Result Bool
resolve_allowed user_id ctx actions roles grants = do
  rs ← roles
  allowed_by (grants user_id) ctx (role_names rs actions)

abbrev or_star : Option String → String
or_star none = "*"
or_star (some s) = s

unfoldable pub scope_key : Option AclResourceContext → String
scope_key none = "agnostic"
scope_key (some ctx) = template (or_star ctx.company_id ∷ "|" ∷ or_star ctx.resource_id ∷ [])

unfoldable pub cache_action : Option AclResourceContext → List String → String
unfolding scope_key
cache_action ctx actions =
    template ("act:" ∷ scope_key ctx ∷ ":" ∷ join "," (sort_by string_le actions) ∷ [])

module _ (s : CacheStore) where
  open s use {Store}

  pub record AclState : Type 0 where
    pub cache : Cache
    pub l2 : Option Store
    pub roles_cache : Option RolesMemo
    pub roles_ttl_ms : ℕ
    pub check_timeout_ms : ℕ

  unfoldable pub invalidate_roles_cache : AclState → AclState
  invalidate_roles_cache st = record st { roles_cache = none }

  -- the end of checkAction: the decision is stored under the generation that the miss saw
  settle : AclState → String → String → ℕ → ℕ → Result Bool → Result Bool × AclState
  settle st user_id k seen now (err e) = (err e, st)
  settle st user_id k seen now (ok allowed) =
      let (cache, l2) = set_cached s st.cache st.l2 user_id k allowed (some seen) now in
      (ok allowed, record st { cache = cache; l2 = l2 })

  -- A resolution that the deadline abandons still runs, so its roles memo stays.
  pub after_miss :
      AclState
      → String
      → Option AclResourceContext
      → List String
      → Clock
      → Replies
      → Result Bool × AclState
  unfolding settle
  after_miss st user_id ctx actions clock replies =
      let (roles, memo) =
        list_roles_cached st.roles_cache st.roles_ttl_ms clock.roles replies.roles in
      settle (record st { roles_cache = memo }) user_id (cache_action ctx actions) st.cache.gen
        clock.store
        (with_timeout (resolve_allowed user_id ctx actions roles replies.grants) st.check_timeout_ms
          replies.late "checkAction")

  after_lookup :
      AclState
      → String
      → Option AclResourceContext
      → List String
      → Clock
      → Replies
      → Option Bool × Cache × Option Store
      → Result Bool × AclState
  unfolding after_miss
  after_lookup st user_id ctx actions clock replies (some v, cache, l2) =
      (ok v, record st { cache = cache; l2 = l2 })
  after_lookup st user_id ctx actions clock replies (none, cache, l2) =
      after_miss (record st { cache = cache; l2 = l2 }) user_id ctx actions clock replies

  unfoldable pub check_action :
      AclState
      → String
      → Option AclResourceContext
      → ActionArg
      → Clock
      → Replies
      → Result Bool × AclState
  unfolding after_lookup
  check_action st user_id ctx action clock replies =
      let actions = to_list action in
      if user_id == "" || is_empty actions
      then (ok false, st)
      else after_lookup st user_id ctx actions clock replies (
          get_cached s st.cache st.l2 user_id (cache_action ctx actions) clock.lookup
            clock.write_back)

  or_false : Result Bool × AclState → Bool × AclState
  or_false (ok b, st) = (b, st)
  or_false (err e, st) = (false, st)

  -- the RPC handler: an error is logged and denies
  unfoldable pub handle_check_action :
      AclState
      → String
      → ActionArg
      → Option String
      → Option String
      → Clock
      → Replies
      → Bool × AclState
  unfolding or_false
  handle_check_action st user_id action company_id resource_id clock replies = or_false (
      check_action st user_id (some (record { company_id = company_id; resource_id = resource_id }))
        action clock replies)
