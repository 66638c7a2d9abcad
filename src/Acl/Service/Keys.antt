-- ===== src/Acl/Service/Keys.antt =====
-- The decision cache seen through checkAction: which later checks a stored decision answers.
use text.Mathlib.TextLemmas.{append_assoc, append-nil}
use nestjs_amqp.Prelude.{
  ℕ, zero, suc, ◌+◌, ◌<◌, String, Bool, false, Option, none, some, List, [], ◌∷◌, ◌≡◌, ◌≢◌, refl,
  sym, ap, ◌∙◌, arith, eq_iff, template, join,
}
use nestjs_amqp.Prelude.Sort.{sort_by, string_le}
use nestjs_amqp.Prelude.Result.{Result, ok, err}
use nestjs_amqp.Acl.Models.{AclRole, AclResourceContext}
use nestjs_amqp.Acl.Cache.{Cache, CacheStore, get_cached, set_cached, is_stale}
use nestjs_amqp.Acl.Cache.Tiers.{get-set_cached}
use nestjs_amqp.Acl.Service.{
  RolesMemo, Replies, Clock, ActionArg, to_list, AclState, with_timeout, list_roles_cached,
  resolve_allowed, scope_key, cache_action, settle, after_miss, invalidate_roles_cache,
  after_lookup, check_action,
}

with_timeout_in_time :
    (p : Result Bool) (ms : ℕ) (late : Bool) (label : String)
    → late ≡ false
    → with_timeout p ms late label ≡ p
unfolding with_timeout
with_timeout_in_time p zero late label h = refl
with_timeout_in_time p (suc ms) late label h = ground arith

memo_live :
    (held : Option RolesMemo) (memo : RolesMemo) (ttl now : ℕ) (reply : Result (List AclRole))
    → held ≡ some memo
    → now < memo.exp
    → (list_roles_cached held ttl now reply).0 ≡ ok memo.roles
unfolding list_roles_cached
memo_live none memo ttl now reply h live = absurd (cc)
memo_live (some m) memo ttl now reply h live = ground arith

module _ (s : CacheStore) where
  fresh_generation : (c : Cache) → is_stale s c (some c.gen) ≡ false
  fresh_generation c = ground arith

  -- the check at a state whose cache answers
  check_action_hit :
      (st : AclState s) (u : String) (ctx : Option AclResourceContext) (action : ActionArg)
      (clock : Clock) (replies : Replies) (v : Bool) (c : Cache) (l2 : Option s.Store)
      → u ≢ ""
      → to_list action ≢ []
      → get_cached s st.cache st.l2 u
          (cache_action ctx (to_list action))
          clock.lookup
          clock.write_back
        ≡ (some v, c, l2)
      → (check_action s st u ctx action clock replies).0 ≡ ok v
  unfolding check_action
  check_action_hit st u ctx action clock replies v c l2 named asked hit =
      ground
        (arith, eq_iff u "", hit, ap (after_lookup s st u ctx (to_list action) clock replies) hit)

  -- the check at a state whose cache misses
  pub check_action_miss :
      (st : AclState s) (u : String) (ctx : Option AclResourceContext) (action : ActionArg)
      (clock : Clock) (replies : Replies) (c : Cache) (l2 : Option s.Store)
      → u ≢ ""
      → to_list action ≢ []
      → get_cached s st.cache st.l2 u
          (cache_action ctx (to_list action))
          clock.lookup
          clock.write_back
        ≡ (none, c, l2)
      → check_action s st u ctx action clock replies
        ≡ after_miss s (record st { cache = c; l2 = l2 }) u ctx (to_list action) clock replies
  unfolding check_action
  check_action_miss st u ctx action clock replies c l2 named asked miss =
      ground (arith, eq_iff u "", ap (after_lookup s st u ctx (to_list action) clock replies) miss)

  settle_stores :
      (st : AclState s) (u k : String) (now : ℕ) (r : Result Bool) (v : Bool)
      → (settle s st u k st.cache.gen now r).0 ≡ ok v
      → let w = set_cached s st.cache st.l2 u k v (some st.cache.gen) now in
        ((settle s st u k st.cache.gen now r).1.cache ≡ w.0)
        × ((settle s st u k st.cache.gen now r).1.l2 ≡ w.1)
  unfolding settle
  settle_stores st u k now (err e) v h = absurd (cc)
  settle_stores st u k now (ok b) v h =
      let same : b ≡ v = cc in
      (
        ap (λ x. (set_cached s st.cache st.l2 u k x (some st.cache.gen) now).0) same,
        ap (λ x. (set_cached s st.cache st.l2 u k x (some st.cache.gen) now).1) same,
      )

  -- what a miss that is decided stores
  after_miss_stores :
      (st : AclState s) (u : String) (ctx : Option AclResourceContext) (actions : List String)
      (clock : Clock) (replies : Replies) (v : Bool)
      → (after_miss s st u ctx actions clock replies).0 ≡ ok v
      → let w =
          set_cached s st.cache st.l2 u
            (cache_action ctx actions)
            v
            (some st.cache.gen)
            clock.store in
        ((after_miss s st u ctx actions clock replies).1.cache ≡ w.0)
        × ((after_miss s st u ctx actions clock replies).1.l2 ≡ w.1)
  unfolding after_miss
  after_miss_stores st u ctx actions clock replies v h = settle_stores _ u _ clock.store _ v h

  -- A decision that a miss reached answers every later check of that user with the same cache key
  -- until it expires, at each state with the same decision cache.
  check_action_again :
      (st : AclState s) (u : String) (ctx ctx' : Option AclResourceContext)
      (action action' : ActionArg) (clock clock' : Clock) (replies replies' : Replies) (v : Bool)
      (c : Cache) (l2 : Option s.Store) (st' : AclState s)
      → u ≢ ""
      → to_list action ≢ []
      → to_list action' ≢ []
      → cache_action ctx' (to_list action') ≡ cache_action ctx (to_list action)
      → get_cached s st.cache st.l2 u
          (cache_action ctx (to_list action))
          clock.lookup
          clock.write_back
        ≡ (none, c, l2)
      → (check_action s st u ctx action clock replies).0 ≡ ok v
      → clock'.lookup < clock.store + c.ram_ttl_ms
      → st'.cache ≡ (check_action s st u ctx action clock replies).1.cache
      → st'.l2 ≡ (check_action s st u ctx action clock replies).1.l2
      → (check_action s st' u ctx' action' clock' replies').0 ≡ ok v
  check_action_again st u ctx ctx' action action' clock clock' replies replies' v c l2 st' named
        asked asked' same_key miss decided fresh same_cache same_l2 =
      let at_miss = check_action_miss st u ctx action clock replies c l2 named asked miss in
      let decided' = rw at_miss at decided in
      let (cache, store) =
        after_miss_stores (record st { cache = c; l2 = l2 }) u ctx (to_list action) clock replies v
          decided' in
      let w = set_cached s c l2 u (cache_action ctx (to_list action)) v (some c.gen) clock.store in
      let cache' = same_cache ∙ ap (λ (r : Result Bool × AclState s). r.1.cache) at_miss ∙ cache in
      let l2' = same_l2 ∙ ap (λ (r : Result Bool × AclState s). r.1.l2) at_miss ∙ store in
      check_action_hit st' u ctx' action' clock' replies' v w.0 w.1 named asked' (
        rw (cache', l2', same_key)
          (get-set_cached s c l2 u (cache_action ctx (to_list action)) v (some c.gen) clock.store
            clock'.lookup clock'.write_back (fresh_generation c) fresh))

  settle-result :
      (st : AclState s) (u k : String) (seen now : ℕ) (r : Result Bool)
      → (settle s st u k seen now r).0 ≡ r
  unfolding settle
  settle-result st u k seen now (err e) = refl
  settle-result st u k seen now (ok b) = refl

  -- with a live memo, and no deadline passing, the memo's roles decide
  pub after_miss_by_memo :
      (st : AclState s) (memo : RolesMemo) (u : String) (ctx : Option AclResourceContext)
      (actions : List String) (clock : Clock) (replies : Replies) (v : Bool)
      → st.roles_cache ≡ some memo
      → clock.roles < memo.exp
      → replies.late ≡ false
      → resolve_allowed u ctx actions (ok memo.roles) replies.grants ≡ ok v
      → (after_miss s st u ctx actions clock replies).0 ≡ ok v
  unfolding after_miss
  after_miss_by_memo st memo u ctx actions clock replies v held valid in_time says =
      settle-result _ u _ _ clock.store _
      ∙ with_timeout_in_time _ st.check_timeout_ms replies.late "checkAction" in_time
      ∙ ap (λ r. resolve_allowed u ctx actions r replies.grants)
          (memo_live st.roles_cache memo st.roles_ttl_ms clock.roles replies.roles held valid)
      ∙ says

  -- So does a check after the roles memo was dropped in between.
  pub check_action_memo_flushed :
      (st : AclState s) (u : String) (ctx : Option AclResourceContext) (action : ActionArg)
      (clock clock' : Clock) (replies replies' : Replies) (v : Bool) (c : Cache)
      (l2 : Option s.Store)
      → u ≢ ""
      → to_list action ≢ []
      → get_cached s st.cache st.l2 u
          (cache_action ctx (to_list action))
          clock.lookup
          clock.write_back
        ≡ (none, c, l2)
      → (check_action s st u ctx action clock replies).0 ≡ ok v
      → clock'.lookup < clock.store + c.ram_ttl_ms
      → (check_action s
          (invalidate_roles_cache s (check_action s st u ctx action clock replies).1)
          u
          ctx
          action
          clock'
          replies').0
        ≡ ok v
  unfolding invalidate_roles_cache
  check_action_memo_flushed st u ctx action clock clock' replies replies' v c l2 named asked miss
        decided fresh =
      check_action_again st u ctx ctx action action clock clock' replies replies' v c l2
        (invalidate_roles_cache s (check_action s st u ctx action clock replies).1) named asked
        asked refl miss decided fresh refl refl

-- company `a|b` with resource `r`, and company `a` with resource `b|r`
abbrev pub bar_in_company : String → String → String → Option AclResourceContext
bar_in_company a b r =
    some (record { company_id = some (template (a ∷ "|" ∷ b ∷ [])); resource_id = some r })

abbrev pub bar_in_resource : String → String → String → Option AclResourceContext
bar_in_resource a b r =
    some (record { company_id = some a; resource_id = some (template (b ∷ "|" ∷ r ∷ [])) })

-- Two contexts that name different resources and share a cache scope: a bar that moves from one id
-- to the other, and an absent id against the id "*".
pub data Confused : Option AclResourceContext → Option AclResourceContext → Type 0 where
  bar : (a b r : String) → Confused (bar_in_company a b r) (bar_in_resource a b r)
  star_company :
      (r : Option String)
      → Confused
          (some (record { company_id = none; resource_id = r }))
          (some (record { company_id = some "*"; resource_id = r }))
  star_resource :
      (c : Option String)
      → Confused
          (some (record { company_id = c; resource_id = none }))
          (some (record { company_id = c; resource_id = some "*" }))

scope_key_collision :
    (a b r : String) → scope_key (bar_in_company a b r) ≡ scope_key (bar_in_resource a b r)
unfolding scope_key
scope_key_collision a b r = simp (append_assoc, append-nil)

Confused-scope_key :
    {ctx ctx' : Option AclResourceContext} → Confused ctx ctx' → scope_key ctx' ≡ scope_key ctx
unfolding scope_key
Confused-scope_key (bar a b r) = sym (scope_key_collision a b r)
Confused-scope_key (star_company r) = refl
Confused-scope_key (star_resource c) = refl

Confused-cache_action :
    {ctx ctx' : Option AclResourceContext} (actions : List String)
    → Confused ctx ctx'
    → cache_action ctx' actions ≡ cache_action ctx actions
unfolding cache_action
Confused-cache_action actions x =
    ap (λ k. template ("act:" ∷ k ∷ ":" ∷ join "," (sort_by string_le actions) ∷ []))
      (Confused-scope_key x)

-- The cache key does not tell confused contexts apart: a decision for one resource answers a check
-- of the other, with the same user and actions, until it expires, whatever the grants say.
pub check_action_confuses :
    (s : CacheStore) (st : AclState s) (u : String) (ctx ctx' : Option AclResourceContext)
    (action : ActionArg) (clock clock' : Clock) (replies replies' : Replies) (v : Bool) (c : Cache)
    (l2 : Option s.Store)
    → Confused ctx ctx'
    → u ≢ ""
    → to_list action ≢ []
    → get_cached s st.cache st.l2 u
        (cache_action ctx (to_list action))
        clock.lookup
        clock.write_back
      ≡ (none, c, l2)
    → (check_action s st u ctx action clock replies).0 ≡ ok v
    → clock'.lookup < clock.store + c.ram_ttl_ms
    → (check_action s
        (check_action s st u ctx action clock replies).1
        u
        ctx'
        action
        clock'
        replies').0
      ≡ ok v
check_action_confuses s st u ctx ctx' action clock clock' replies replies' v c l2 x named asked =
    λ miss decided fresh.
      check_action_again s st u ctx ctx' action action clock clock' replies replies' v c l2
        (check_action s st u ctx action clock replies).1 named asked asked
        (Confused-cache_action (to_list action) x) miss decided fresh refl refl
