-- ===== src/Acl/Management/Tests.antt =====
-- The theorems on grants and revokes at concrete inputs, over a database in memory.
use nestjs_amqp.Prelude.{
  ◌+◌, dedup, String, true, false, Option, none, some, List, [], ◌∷◌, ◌++◌, ◌==◌, if◌then◌else◌,
  map, select, ◌≡◌, ◌≢◌, refl, sym, ap, ◌∙◌, eq_refl, In, inl, inr, subst, In-select, select_of_In,
  In-append_right, map_of_In,
}
use nestjs_amqp.Prelude.Result.{Result, ok}
use nestjs_amqp.JsMap.{get}
use nestjs_amqp.Acl.Models.{AclRole, AclGrant}
use nestjs_amqp.Acl.Match.{same, same_iff}
use nestjs_amqp.Acl.Cache.{CacheStore, key, get_cached, set_cached, ram_set, evict}
use nestjs_amqp.Prelude.Sort.{sort_by}
use nestjs_amqp.Acl.Service.{
  resolve_allowed, check_action, to_list, with_timeout, list_roles_cached, allowed_by, role_names,
  cache_action,
}
use nestjs_amqp.Acl.Management.{
  Database, Options, Moment, Management, GrantPatch, GrantNames, context, apply_grant, check,
  assert_roles_exist, find_grant, grant, revoke,
}
use nestjs_amqp.Acl.Management.Gate.{grant-gated, manages, administers}
use nestjs_amqp.Acl.Management.Effects.{
  IsStore, named, patched, apply_grant-authorizes, apply_grant-invalidates,
}

abbrev no_l2 : CacheStore
no_l2 = record {
  Store = Unit;
  get_key = λ st k. (some none, st);
  set_key = λ st k v ttl. (true, st);
  del = λ st ks. (true, st);
  keys = λ st pattern. (some [], st);
}

abbrev owner_role : AclRole
owner_role = record { name = "owner"; description = none; actions = "read" ∷ "write" ∷ [] }

abbrev blank : AclGrant
blank = record {
  id = some "new";
  user_id = "";
  resource_id = none;
  company_id = none;
  friendly_name = none;
  roles = [];
}

abbrev update_one : Option String → GrantPatch → AclGrant → AclGrant
update_one id p g = if same g.id id then patched p g else g

-- the grants; the roles never change here
abbrev memory : Database
memory = record {
  Db = List AclGrant;
  list_roles = λ db. ok (owner_role ∷ []);
  grants_of = λ db u. ok (select (λ g. g.user_id == u) db);
  insert_grant = λ db g. (ok g, db ++ record g { id = some "new" } ∷ []);
  update_grant = λ db id p. (ok (patched p blank), map (update_one id p) db);
  remove_grant = λ db id. (ok blank, []);
  roles_named = λ db names. ok (owner_role ∷ []);
  actions_named = λ db names. ok [];
  upsert_role = λ db r. (ok r, db);
  remove_role = λ db n. (ok owner_role, db);
  upsert_action = λ db a. (ok a, db);
  remove_action = λ db n. (ok (record { name = n; description = none }), db);
}

user-named : (names : Option GrantNames) (g : AclGrant) → (named names g).user_id ≡ g.user_id
user-named none g = refl
user-named (some names) g = refl

update_one_self : (g : AclGrant) (p : GrantPatch) → update_one g.id p g ≡ patched p g
update_one_self g p = let hit : same g.id g.id ≡ true = (same_iff g.id g.id).1 refl in rw hit refl

updated_found :
    (db : List AclGrant) (u : String) (gs : List AclGrant) (g : AclGrant) (p : GrantPatch)
    → select (λ x. x.user_id == u) db ≡ gs
    → In g gs
    → In (patched p g) (select (λ x. x.user_id == u) (map (update_one g.id p) db))
updated_found db u gs g p e i =
    let (there, mine) = In-select (λ x. x.user_id == u) db g (subst (In g) (sym e) i) in
    select_of_In (λ x. x.user_id == u) (map (update_one g.id p) db) (patched p g)
      (subst (λ x. In x (map (update_one g.id p) db)) (update_one_self g p)
        (map_of_In (update_one g.id p) db g there))
      (ap (λ x. x == u) (user-named p.names (record g { roles = p.roles })) ∙ mine)

memory-IsStore : IsStore memory
memory-IsStore = record {
  insert_found = λ db g g' h. (
    select (λ x. x.user_id == g.user_id) (db ++ record g { id = some "new" } ∷ []),
    refl,
    (
      some "new",
      select_of_In (λ x. x.user_id == g.user_id) (db ++ record g { id = some "new" } ∷ []) _
          (In-append_right db _ _ (inl refl)) (eq_refl g.user_id),
    ),
  );
  update_found = λ db u gs g g' p e i h. (
    select (λ x. x.user_id == u) (map (update_one g.id p) db),
    refl,
    updated_found db u gs g p (cc) i,
  );
}

abbrev options : Options
options = record {
  role_mgmt_action = "role-management";
  role_system_action = "role-system";
  broadcasts = true;
}

abbrev start : Management no_l2 memory options
start = record {
  db = [];
  acl = record {
    cache = record { ram = []; gen = 4; ram_ttl_ms = 100; l2_ttl_sec = 600; max_ram_entries = 2 };
    l2 = none;
    roles_cache = none;
    roles_ttl_ms = 1000;
    check_timeout_ms = 0;
  };
  sent = [];
}

abbrev noon : Moment
noon = record { clock = record { lookup = 1; write_back = 1; roles = 1; store = 1 }; late = false }

abbrev granted_owner : Result AclGrant × Management no_l2 memory options
granted_owner = apply_grant no_l2 memory options "u" ("owner" ∷ []) (some "r") (some "c") none start

granted_ok :
    granted_owner.0
    ≡ ok (record {
      id = none;
      user_id = "u";
      resource_id = some "r";
      company_id = some "c";
      friendly_name = none;
      roles = "owner" ∷ [];
    })
unfolding apply_grant assert_roles_exist find_grant dedup
granted_ok = refl

apply_grant-authorizes_example :
    resolve_allowed "u"
      (some (context (some "c") (some "r")))
      ("write" ∷ [])
      (ok (owner_role ∷ []))
      (memory.grants_of granted_owner.1.db)
    ≡ ok true
apply_grant-authorizes_example =
    apply_grant-authorizes no_l2 memory options "u" ("owner" ∷ []) (some "r") (some "c") none start
      _ (owner_role ∷ []) owner_role "write" memory-IsStore granted_ok (inl refl) (inl refl)
      (inr (inl refl))

apply_grant-invalidates_example :
    (get granted_owner.1.acl.cache.ram (key "u" "act:c|r:write") ≡ none)
    × (granted_owner.1.acl.cache.gen ≡ start.acl.cache.gen + 1)
apply_grant-invalidates_example =
    apply_grant-invalidates no_l2 memory options "u" ("owner" ∷ []) (some "r") (some "c") none start
      _ "act:c|r:write" granted_ok

mallory_refused :
    (manages no_l2 memory options (some "c") (some "r") (some "mallory") noon noon start).0
    ≡ ok false
unfolding check check_action to_list get_cached with_timeout resolve_allowed list_roles_cached
    allowed_by role_names
mallory_refused = refl

mallory_unprivileged :
    (administers no_l2 memory options (some "c") (some "r") (some "mallory") noon noon start).0
    ≡ ok false
unfolding check check_action to_list get_cached with_timeout resolve_allowed list_roles_cached
    allowed_by role_names set_cached ram_set evict key cache_action sort_by
mallory_unprivileged = refl

abbrev asked : Result AclGrant × Management no_l2 memory options
asked =
    grant no_l2 memory options "mallory" ("owner" ∷ []) (some "r") (some "c") none (some "mallory")
      noon noon start

abbrev asked_back : Result (Option AclGrant) × Management no_l2 memory options
asked_back =
    revoke no_l2 memory options "mallory" ("owner" ∷ []) (some "r") (some "c") (some "mallory") noon
      noon start

false_not_true : ok false ≢ ok true
false_not_true e = cc

grant-gated_example :
    ((g : AclGrant) → asked.0 ≢ ok g)
    × (asked.1.db ≡ start.db)
    × ((g : Option AclGrant) → asked_back.0 ≢ ok g)
    × (asked_back.1.db ≡ start.db)
grant-gated_example =
    grant-gated no_l2 memory options (some "c") (some "r") (some "mallory") noon noon start
      "mallory" ("owner" ∷ []) none (λ e. false_not_true (sym mallory_refused ∙ e))
      (λ e. false_not_true (sym mallory_unprivileged ∙ e))
