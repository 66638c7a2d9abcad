-- ===== src/Acl/Race.antt =====
-- Checks and grant mutations that interleave on one instance (acl.service.ts, acl-cache.service.ts
-- and the write-then-invalidate order of acl-management.service.ts), as a step relation.
-- A check is three steps (it misses and notes the generation; it reads the database; it stores its
-- decision), a mutation two (it writes the grants of a user; it invalidates that user). The
-- instance has no L2 store and the roles collection does not change.
pub mod Coherence
pub mod Leaks
use nestjs_amqp.Prelude.{
  ℕ, suc, ◌+◌, String, Bool, true, false, Option, none, some, List, [], ◌∷◌, ◌++◌, ◌==◌,
  if◌then◌else◌, select, not, ◌≡◌,
}
use nestjs_amqp.Prelude.Result.{Result, ok}
use nestjs_amqp.Acl.Models.{AclRole, AclGrant, AclResourceContext}
use nestjs_amqp.Acl.Cache.{Cache, CacheStore, get_cached, set_cached, invalidate_local_ram}
use nestjs_amqp.Acl.Service.{resolve_allowed, cache_action}

-- what a check asks
pub record Query : Type 0 where
  pub user_id : String
  pub ctx : Option AclResourceContext
  pub actions : List String

abbrev pub action_key : Query → String
action_key q = cache_action q.ctx q.actions

-- a check in flight: its generation, and its decision once the database was read
pub record Flight : Type 0 where
  pub query : Query
  pub seen : ℕ
  pub verdict : Option Bool

pub record World : Type 0 where
  pub cache : Cache
  pub grants : String → List AclGrant
  pub checks : List Flight
  -- the users whose grants were written and not yet invalidated
  pub dirty : List String

abbrev pub write_grants : (String → List AclGrant) → String → List AclGrant → String → List AclGrant
write_grants grants u gs x = if u == x then gs else grants x

-- what the database now says
abbrev pub decision : List AclRole → (String → List AclGrant) → Query → Result Bool
decision roles grants q = resolve_allowed q.user_id q.ctx q.actions (ok roles) (λ u. ok (grants u))

module _ (s : CacheStore) (roles : List AclRole) (Asked : Query → Type 0) where
  pub data Step : World → World → Type 0 where
    miss :
        (w : World) (q : Query) (now later : ℕ)
        → Asked q
        → (get_cached s w.cache none q.user_id (action_key q) now later).0 ≡ none
        → Step w (record w {
          cache = (get_cached s w.cache none q.user_id (action_key q) now later).1;
          checks = record { query = q; seen = w.cache.gen; verdict = none } ∷ w.checks;
        })
    resolve :
        (w : World) (xs ys : List Flight) (f : Flight) (v : Bool)
        → w.checks ≡ xs ++ f ∷ ys
        → decision roles w.grants f.query ≡ ok v
        → Step w (record w { checks = xs ++ record f { verdict = some v } ∷ ys })
    store :
        (w : World) (xs ys : List Flight) (f : Flight) (v : Bool) (now : ℕ)
        → w.checks ≡ xs ++ f ∷ ys
        → f.verdict ≡ some v
        → Step w (record w {
          cache =
              (set_cached s w.cache none f.query.user_id
                (action_key f.query)
                v
                (some f.seen)
                now).0;
          checks = xs ++ ys;
        })
    -- the check fails or times out
    abandon :
        (w : World) (xs ys : List Flight) (f : Flight)
        → w.checks ≡ xs ++ f ∷ ys
        → Step w (record w { checks = xs ++ ys })
    write :
        (w : World) (u : String) (gs : List AclGrant)
        → Step w (record w { grants = write_grants w.grants u gs; dirty = u ∷ w.dirty })
    flush :
        (w : World) (u : String)
        → Step w (record w {
          cache = invalidate_local_ram w.cache (some u);
          dirty = select (λ x. not (x == u)) w.dirty;
        })

  pub data Reach (w : World) : World → Type 0 where
    here : Reach w w
    next : {v u : World} → Reach w v → Step v u → Reach w u
