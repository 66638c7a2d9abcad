-- ===== src/Acl/Cache.antt =====
-- modules/acl/cache/acl-cache.service.ts and cache-store.ts: the two-tier decision cache.
-- `Date.now()` is an argument of each call, once for each time that the code reads the clock. The
-- L2 store is the application's: a parameter, whose calls may reject.
pub mod Ram
pub mod Tiers
use text.Mathlib.Text.{starts_with}
use nestjs_amqp.Prelude.{
  ℕ, zero, suc, ◌+◌, String, Bool, true, false, Option, none, some, List, [], ◌∷◌, ◌==◌,
  if◌then◌else◌, ltb, nat_eq, not, template,
}
use nestjs_amqp.JsMap.{JsMap, get, set, delete, size, delete_where}

pub record RamEntry : Type 0 where
  pub v : Bool
  pub exp : ℕ

-- The service's state. A cap of 0 stands for "no cap"; the code also reads a negative cap so.
pub record Cache : Type 0 where
  pub ram : JsMap RamEntry
  pub gen : ℕ
  pub ram_ttl_ms : ℕ
  pub l2_ttl_sec : ℕ
  pub max_ram_entries : ℕ

abbrev pub user_prefix : String → List String
user_prefix user_id = "acl/" ∷ user_id ∷ "/" ∷ []

unfoldable pub key : String → String → String
key user_id action = template ("acl/" ∷ user_id ∷ "/" ∷ action ∷ [])

-- the `while` of ramSet: the first entry is the oldest
unfoldable pub evict : ℕ → JsMap RamEntry → JsMap RamEntry
evict cap [] = []
evict cap (e ∷ m) = let rest = evict cap m in if ltb cap (size (e ∷ m)) then rest else e ∷ m

unfoldable pub ram_set : Cache → String → RamEntry → Cache
ram_set c k entry =
    let ram = set (delete c.ram k) k entry in
    record c { ram = if ltb 0 c.max_ram_entries then evict c.max_ram_entries ram else ram }

-- `userId` absent or '' clears everything
unfoldable pub invalidate_local_ram : Cache → Option String → Cache
invalidate_local_ram c none = record c { ram = []; gen = c.gen + 1 }
invalidate_local_ram c (some user_id) =
    if user_id == "" then record c { ram = []; gen = c.gen + 1 } else record c {
      ram = delete_where (λ k. starts_with k (template (user_prefix user_id))) c.ram;
      gen = c.gen + 1;
    }

-- The store's operations: the first component is `none` or `false` when the promise rejects.
pub record CacheStore : Type 1 where
  pub Store : Type 0
  pub get_key : Store → String → Option (Option String) × Store
  pub set_key : Store → String → String → ℕ → Bool × Store
  pub del : Store → List String → Bool × Store
  pub keys : Store → String → Option (List String) × Store

abbrev pub decode : Option String → Option Bool
decode none = none
decode (some s) = if s == "1" then some true else if s == "0" then some false else none

abbrev pub encode : Bool → String
encode true = "1"
encode false = "0"

module _ (s : CacheStore) where
  open s use {Store, get_key, set_key, del, keys}

  -- what `get` does with the L2 reply; a rejection is logged and counts as a miss
  after_read :
      Cache → String → ℕ → Option (Option String) × Store → Option Bool × Cache × Option Store
  after_read c k now (none, l2) = (none, c, some l2)
  after_read c k now (some cached, l2) = elim (decode cached) [
    | none ↦ (none, c, some l2)
    | some value ↦
        (some value, ram_set c k (record { v = value; exp = now + c.ram_ttl_ms }), some l2)
  ]

  read_l2 : Cache → Option Store → String → ℕ → Option Bool × Cache × Option Store
  unfolding after_read
  read_l2 c none k now = (none, c, none)
  read_l2 c (some l2) k now = after_read c k now (get_key l2 k)

  -- `now` is the clock at the expiry test, `later` the clock at the write-back
  unfoldable pub get_cached :
      Cache → Option Store → String → String → ℕ → ℕ → Option Bool × Cache × Option Store
  unfolding read_l2
  get_cached c l2 user_id action now later =
      let k = key user_id action in
      elim (get c.ram k) [
        | none ↦ read_l2 c l2 k later
        | some entry ↦
            if ltb now entry.exp
            then (some entry.v, c, l2)
            else read_l2 (record c { ram = delete c.ram k }) l2 k later
      ]

  write_l2 : Cache → Option Store → String → Bool → Cache × Option Store
  write_l2 c none k value = (c, none)
  write_l2 c (some l2) k value = (c, some (set_key l2 k (encode value) c.l2_ttl_sec).1)

  -- `seen` names a generation that is not the present one
  abbrev pub is_stale : Cache → Option ℕ → Bool
  is_stale c none = false
  is_stale c (some seen) = not (nat_eq seen c.gen)

  unfoldable pub set_cached :
      Cache → Option Store → String → String → Bool → Option ℕ → ℕ → Cache × Option Store
  unfolding write_l2
  set_cached c l2 user_id action value seen now =
      if is_stale c seen
      then (c, l2)
      else write_l2
          (ram_set c (key user_id action) (record { v = value; exp = now + c.ram_ttl_ms })) l2
          (key user_id action) value

  abbrev pattern_of : Option String → String
  pattern_of none = "acl/*"
  pattern_of (some u) = if u == "" then "acl/*" else template ("acl/" ∷ u ∷ "/*" ∷ [])

  del_found : Option (List String) × Store → Store
  del_found (none, l2) = l2
  del_found (some [], l2) = l2
  del_found (some (k ∷ ks), l2) = (del l2 (k ∷ ks)).1

  unfoldable pub invalidate : Cache → Option Store → Option String → Cache × Option Store
  unfolding del_found
  invalidate c none user_id = (invalidate_local_ram c user_id, none)
  invalidate c (some l2) user_id =
      (invalidate_local_ram c user_id, some (del_found (keys l2 (pattern_of user_id))))
