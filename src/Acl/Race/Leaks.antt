-- ===== src/Acl/Race/Leaks.antt =====
-- Two interleavings that the generation counter does not cover: the L2 read-back of `get`, and the
-- roles memo, which invalidateAll drops after its first await.
use nestjs_amqp.Prelude.{
  ℕ, ◌+◌, ◌<◌, String, Bool, false, Option, none, some, [], ◌≡◌, ◌≢◌, refl, ap, ◌∙◌, arith,
}
use nestjs_amqp.Prelude.Result.{Result, ok}
use nestjs_amqp.Acl.Models.{AclResourceContext}
use nestjs_amqp.Acl.Cache.{Cache, CacheStore, key, decode, get_cached, invalidate_local_ram}
use nestjs_amqp.Acl.Cache.Ram.{get-ram_set_self, get-invalidate_user}
use nestjs_amqp.Acl.Service.{
  RolesMemo, Replies, Clock, ActionArg, to_list, AclState, resolve_allowed, cache_action,
  invalidate_roles_cache, check_action,
}
use nestjs_amqp.Acl.Service.Keys.{check_action_miss, check_action_memo_flushed, after_miss_by_memo}

module _ (s : CacheStore) where
  open s use {Store, get_key}

  -- A read that runs between the RAM part and the L2 part of an invalidation of its user, and that
  -- the L2 store still answers, puts the old decision back into the RAM tier: it is answered until
  -- it expires, whatever the store then holds, although the invalidation has ended.
  pub read_back_survives :
      (c : Cache) (st st' : Store) (u a : String) (now later : ℕ) (reply : Option String) (v : Bool)
      (l2 : Option Store) (now' later' : ℕ)
      → get_key st (key u a) ≡ (some reply, st')
      → decode reply ≡ some v
      → now' < later + (invalidate_local_ram c (some u)).ram_ttl_ms
      → let r = get_cached s (invalidate_local_ram c (some u)) (some st) u a now later in
        (get_cached s r.1 l2 u a now' later').0 ≡ some v
  unfolding get_cached
  read_back_survives c st st' u a now later reply v l2 now' later' answered decoded live =
      let c' = invalidate_local_ram c (some u) in
      ground (
        arith,
        get-invalidate_user c u a,
        get-ram_set_self c' (key u a) (record { v = v; exp = later + c'.ram_ttl_ms }),
      )

  -- what a check after the RAM part of invalidateAll finds
  miss_of_invalidated :
      (c : Cache) (u a : String) (now later : ℕ)
      → get_cached s (invalidate_local_ram c none) none u a now later
        ≡ (none, invalidate_local_ram c none, none)
  unfolding get_cached invalidate_local_ram
  miss_of_invalidated c u a now later = refl

  -- A check that begins between the two halves of invalidateAll (the cache, then the roles memo)
  -- decides by the roles that the memo still holds, and stores that decision under the new
  -- generation: it is answered after invalidateAll has ended, until it expires, whatever the
  -- collections then hold. (Without an L2 store, and with no deadline passing.)
  pub roles_memo_survives :
      (st : AclState s) (memo : RolesMemo) (u : String) (ctx : Option AclResourceContext)
      (action : ActionArg) (clock clock' : Clock) (replies replies' : Replies) (v : Bool)
      → u ≢ ""
      → to_list action ≢ []
      → st.roles_cache ≡ some memo
      → clock.roles < memo.exp
      → replies.late ≡ false
      → resolve_allowed u ctx (to_list action) (ok memo.roles) replies.grants ≡ ok v
      → clock'.lookup < clock.store + (invalidate_local_ram st.cache none).ram_ttl_ms
      → let half = record st { cache = invalidate_local_ram st.cache none; l2 = none } in
        let checked = check_action s half u ctx action clock replies in
        (checked.0 ≡ ok v)
        × ((check_action s (invalidate_roles_cache s checked.1) u ctx action clock' replies').0
            ≡ ok v)
  roles_memo_survives st memo u ctx action clock clock' replies replies' v named asked held valid
        in_time says fresh =
      let half : AclState s = record st { cache = invalidate_local_ram st.cache none; l2 = none } in
      let missed =
        miss_of_invalidated st.cache u (cache_action ctx (to_list action)) clock.lookup
          clock.write_back in
      let decided : (check_action s half u ctx action clock replies).0 ≡ ok v =
        ap (λ (r : Result Bool × AclState s). r.0)
          (check_action_miss s half u ctx action clock replies half.cache none named asked missed)
        ∙ after_miss_by_memo s half memo u ctx (to_list action) clock replies v held valid in_time
            says in
      (
        decided,
        check_action_memo_flushed s half u ctx action clock clock' replies replies' v half.cache
            none named asked missed decided fresh,
      )
