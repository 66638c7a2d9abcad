-- ===== src/Acl/Tests.antt =====
-- The theorems of the access-control module at concrete inputs.
use nestjs_amqp.Prelude.{
  ℕ, String, true, false, Option, none, some, List, [], ◌∷◌, ◌≡◌, ◌↔◌, refl, arith, ◌==◌,
  if◌then◌else◌, map, sym, ◌∙◌,
}
use nestjs_amqp.Prelude.Result.{Result, ok}
use nestjs_amqp.Prelude.Sort.{sort_by}
use nestjs_amqp.JsMap
use nestjs_amqp.JsMap.{JsMap}
use nestjs_amqp.Acl.Models.{AclRole, AclGrant, AclResourceContext}
use nestjs_amqp.Acl.Match.{norm, grant_matches_resource, grant_matches_resource_iff}
use nestjs_amqp.Acl.Cache.{
  Cache, CacheStore, key, get_cached, set_cached, invalidate, invalidate_local_ram, ram_set, evict,
}
use nestjs_amqp.Acl.Cache.Ram.{IsValid}
use nestjs_amqp.Acl.Cache.Tiers.{get-set_cached, set_cached-invalidate, operations-IsValid}
use nestjs_amqp.Acl.Service.{
  RolesMemo, Replies, Clock, one, to_list, AclState, resolve_allowed, cache_action, check_action,
  invalidate_roles_cache, role_names, scoped, allowed_by, with_timeout, list_roles_cached,
}
use nestjs_amqp.Acl.Service.Decision.{Authorizes, resolve_allowed_iff}
use nestjs_amqp.Acl.Service.Keys.{star_company, check_action_confuses}
use nestjs_amqp.Acl.Race.{
  Query, World, Reach, here, next, write, flush, miss, resolve, store, write_grants, action_key,
  decision,
}
use nestjs_amqp.Acl.Race.Coherence.Entries.{full_key}
use nestjs_amqp.Acl.Race.{Flight}
use nestjs_amqp.Prelude.{◌⊎◌, inl, inr, ◌==◌, false, ap, eq_iff, ◌∙◌, sym, ◌≢◌}
use nestjs_amqp.Acl.Race.Coherence.{IsCoherent, get_cached-coherent}
use nestjs_amqp.Acl.Race.Leaks.{read_back_survives, roles_memo_survives}

-- an L2 store that never rejects and never expires
abbrev memory_store : CacheStore
memory_store = record {
  Store = JsMap String;
  get_key = λ st k. (some (JsMap.get st k), st);
  set_key = λ st k v ttl. (true, JsMap.set st k v);
  del = λ st ks. (true, []);
  keys = λ st pattern. (some (map (λ e. e.0) st), st);
}

abbrev empty_cache : Cache
empty_cache = record { ram = []; gen = 0; ram_ttl_ms = 100; l2_ttl_sec = 600; max_ram_entries = 2 }

empty_cache-IsValid : IsValid empty_cache
empty_cache-IsValid = record { distinct = tt; bounded = λ p. omega arith }

-- three writes under a cap of two: the first is gone
evicts_oldest :
    JsMap.size
      (set_cached memory_store
        (set_cached memory_store
          (set_cached memory_store empty_cache none "u" "a" true none 1).0
          none
          "u"
          "b"
          true
          none
          2).0
        none
        "u"
        "c"
        true
        none
        3).0.ram
    ≡ 2
unfolding set_cached ram_set evict key
evicts_oldest = refl

grant_matches_resource_iff_example :
    (grant_matches_resource
        (record {
          id = none;
          user_id = "u";
          resource_id = some "r";
          company_id = some "";
          friendly_name = none;
          roles = [];
        })
        (some (record { company_id = none; resource_id = some "r" }))
      ≡ true)
    ↔ ((norm (some "") ≡ norm none) × (norm (some "r") ≡ norm (some "r")))
grant_matches_resource_iff_example =
    grant_matches_resource_iff
      (record {
        id = none;
        user_id = "u";
        resource_id = some "r";
        company_id = some "";
        friendly_name = none;
        roles = [];
      })
      (some (record { company_id = none; resource_id = some "r" }))

get-set_cached_example :
    let w = set_cached memory_store empty_cache (some []) "u" "act:x" true (some 0) 5 in
    get_cached memory_store w.0 w.1 "u" "act:x" 104 105 ≡ (some true, w.0, w.1)
get-set_cached_example =
    get-set_cached memory_store empty_cache (some []) "u" "act:x" true (some 0) 5 104 105 refl
      (omega arith)

set_cached-invalidate_example :
    let i = invalidate memory_store empty_cache (some []) (some "v") in
    set_cached memory_store i.0 i.1 "u" "act:x" true (some 0) 5 ≡ (i.0, i.1)
set_cached-invalidate_example =
    set_cached-invalidate memory_store empty_cache (some []) (some "v") "u" "act:x" true 5

operations-IsValid_example :
    IsValid (get_cached memory_store empty_cache none "u" "a" 1 2).1
    × IsValid (set_cached memory_store empty_cache none "u" "a" true none 1).0
    × IsValid (invalidate memory_store empty_cache none (some "u")).0
operations-IsValid_example =
    operations-IsValid memory_store empty_cache none "u" "a" true none (some "u") 1 2
      empty_cache-IsValid

abbrev l2_hit : JsMap String
l2_hit = ("acl/u/a", "1") ∷ []

l2_answers : (get_cached memory_store empty_cache (some l2_hit) "u" "a" 1 2).0 ≡ some true
unfolding get_cached key
l2_answers = refl

abbrev editor : AclRole
editor = record { name = "editor"; description = none; actions = "read" ∷ "write" ∷ [] }

abbrev grant_on : Option String → Option String → AclGrant
grant_on c r = record {
  id = some "g";
  user_id = "u";
  resource_id = r;
  company_id = c;
  friendly_name = none;
  roles = "editor" ∷ [];
}

abbrev grants_of_u : String → Result (List AclGrant)
grants_of_u x = ok (if x == "u" then grant_on none none ∷ [] else [])

resolve_allowed_iff_example :
    (resolve_allowed "u" none ("write" ∷ []) (ok (editor ∷ [])) grants_of_u ≡ ok true)
    ↔ Authorizes (editor ∷ []) (grant_on none none ∷ []) none ("write" ∷ [])
resolve_allowed_iff_example =
    resolve_allowed_iff "u" none ("write" ∷ []) (editor ∷ []) grants_of_u (grant_on none none ∷ [])
      refl

abbrev fresh_state : AclState memory_store
fresh_state = record {
  cache = empty_cache;
  l2 = none;
  roles_cache = none;
  roles_ttl_ms = 100;
  check_timeout_ms = 50;
}

abbrev at_time : ℕ → Clock
at_time t = record { lookup = t; write_back = t; roles = t; store = t }

abbrev with_global_grant : Replies
with_global_grant = record { roles = ok (editor ∷ []); grants = grants_of_u; late = false }

abbrev no_grants : Replies
no_grants = record { roles = ok []; grants = λ u. ok []; late = false }

abbrev no_resource : Option AclResourceContext
no_resource = some (record { company_id = none; resource_id = none })

abbrev star_company_only : Option AclResourceContext
star_company_only = some (record { company_id = some "*"; resource_id = none })

-- A user with a resource-less grant is then allowed on the company called "*".
check_action_confuses_example :
    (check_action memory_store
      (check_action memory_store fresh_state "u" no_resource
        (one "write")
        (at_time 1)
        with_global_grant).1
      "u"
      star_company_only
      (one "write")
      (at_time 9)
      no_grants).0
    ≡ ok true
unfolding to_list check_action get_cached with_timeout resolve_allowed list_roles_cached allowed_by
    role_names scoped grant_matches_resource norm
check_action_confuses_example =
    check_action_confuses memory_store fresh_state "u" no_resource star_company_only (one "write")
      (at_time 1) (at_time 9) with_global_grant no_grants true empty_cache none (star_company none)
      (λ e. cc) (λ e. cc) refl refl (omega arith)

abbrev start : World
start = record { cache = empty_cache; grants = λ u. []; checks = []; dirty = [] }

abbrev write_query : Query
write_query = record { user_id = "u"; ctx = none; actions = "write" ∷ [] }

abbrev read_query : Query
read_query = record { user_id = "v"; ctx = none; actions = "read" ∷ [] }

-- the two queries of this run
abbrev IsRunQuery : Query → Type 0
IsRunQuery q = (q ≡ write_query) ⊎ (q ≡ read_query)

keys_unequal : (full_key write_query == full_key read_query) ≡ false
unfolding key cache_action sort_by
keys_unequal = refl

keys-apart : full_key write_query ≢ full_key read_query
keys-apart e =
    let same_keys = (eq_iff (full_key write_query) (full_key read_query)).1 e in
    let other_keys = keys_unequal in cc

queries-apart : (q q' : Query) → IsRunQuery q → IsRunQuery q' → full_key q ≡ full_key q' → q ≡ q'
queries-apart q q' (inl a) (inl b) e = a ∙ sym b
queries-apart q q' (inl a) (inr b) e = absurd (keys-apart (sym (ap full_key a) ∙ e ∙ ap full_key b))
queries-apart q q' (inr a) (inl b) e =
    absurd (keys-apart (sym (ap full_key b) ∙ sym e ∙ ap full_key a))
queries-apart q q' (inr a) (inr b) e = a ∙ sym b

start-IsCoherent : IsCoherent memory_store (editor ∷ []) IsRunQuery queries-apart start
start-IsCoherent = record {
  valid = empty_cache-IsValid;
  entries = λ q e asked clean found. absurd (cc);
  flights = tt;
}

abbrev reading : Flight
reading = record { query = read_query; seen = 1; verdict = none }

-- The user is granted the role, and a check of the new grant runs to its end beside one of another
-- user.
abbrev granted : World
granted = record {
  cache = invalidate_local_ram empty_cache (some "u");
  grants = write_grants (λ u. []) "u" (grant_on none none ∷ []);
  checks = [];
  dirty = [];
}

abbrev finished : World
finished = record granted {
  cache =
      (set_cached memory_store (invalidate_local_ram empty_cache (some "u")) none "u"
        (action_key write_query) true (some 1) 5).0;
  checks = reading ∷ [];
}

run : Reach memory_store (editor ∷ []) IsRunQuery start finished
unfolding invalidate_local_ram get_cached resolve_allowed allowed_by role_names scoped
run =
    next
      (next
        (next
          (next (next (next here (write start "u" (grant_on none none ∷ []))) (flush _ "u"))
            (miss granted write_query 5 5 (inl refl) refl))
          (miss _ read_query 5 5 (inr refl) refl))
        (resolve _ (reading ∷ []) [] (record { query = write_query; seen = 1; verdict = none }) true
          refl refl))
      (store _ (reading ∷ []) [] (record { query = write_query; seen = 1; verdict = some true })
        true 5 refl refl)

get_cached-coherent_example : decision (editor ∷ []) finished.grants write_query ≡ ok true
unfolding invalidate_local_ram get_cached set_cached ram_set evict key cache_action sort_by
get_cached-coherent_example =
    get_cached-coherent memory_store (editor ∷ []) IsRunQuery queries-apart start finished
      write_query 9 9 true start-IsCoherent run (inl refl) (λ i. i) refl

read_back_survives_example :
    (get_cached memory_store
      (get_cached memory_store
        (invalidate_local_ram empty_cache (some "u"))
        (some l2_hit)
        "u"
        "a"
        1
        2).1
      none
      "u"
      "a"
      90
      91).0
    ≡ some true
unfolding key invalidate_local_ram
read_back_survives_example =
    read_back_survives memory_store empty_cache l2_hit l2_hit "u" "a" 1 2 (some "1") true none 90 91
      refl refl (omega arith)

abbrev stale_memo : RolesMemo
stale_memo = record { roles = editor ∷ []; exp = 50 }

abbrev remembering : AclState memory_store
remembering = record fresh_state { roles_cache = some stale_memo }

-- The role has lost its actions, and the check that ran in between still allows.
roles_memo_survives_example :
    let half : AclState memory_store = record remembering {
      cache = invalidate_local_ram empty_cache none;
      l2 = none;
    } in
    let checked =
      check_action memory_store half "u" no_resource (one "write") (at_time 3) with_global_grant in
    (checked.0 ≡ ok true)
    × ((check_action memory_store
          (invalidate_roles_cache memory_store checked.1)
          "u"
          no_resource
          (one "write")
          (at_time 9)
          no_grants).0
        ≡ ok true)
unfolding to_list resolve_allowed allowed_by role_names scoped grant_matches_resource norm
    invalidate_local_ram
roles_memo_survives_example =
    roles_memo_survives memory_store remembering stale_memo "u" no_resource (one "write")
      (at_time 3) (at_time 9) with_global_grant no_grants true (λ e. cc) (λ e. cc) refl
      (omega arith) refl refl (omega arith)
