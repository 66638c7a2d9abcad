-- ===== src/Acl/Cache/Tiers.antt =====
-- Reads, writes and invalidations over both tiers.
use nestjs_amqp.Prelude.{
  ℕ, ◌+◌, ◌<◌, String, Bool, false, Option, none, some, ltb, ◌≡◌, refl, ◌⊎◌, inl, inr, arith,
  Bool-cases, Option-cases,
}
use nestjs_amqp.JsMap.{get, delete}
use nestjs_amqp.JsMap.Laws.{delete-IsMap, size-delete-le}
use nestjs_amqp.Acl.Cache.{
  RamEntry, Cache, key, ram_set, invalidate_local_ram, CacheStore, decode, is_stale, get_cached,
  set_cached, invalidate, write_l2, after_read, read_l2,
}
use nestjs_amqp.Acl.Cache.Ram.{IsValid, get-ram_set_self, ram_set-IsValid, invalidate-IsValid}

pub gen-invalidate :
    (c : Cache) (user_id : Option String) → (invalidate_local_ram c user_id).gen ≡ c.gen + 1
unfolding invalidate_local_ram
gen-invalidate c none = refl
gen-invalidate c (some u) = ground arith

module _ (s : CacheStore) where
  open s use {Store, get_key}

  -- Directly after a write under the present generation, or under none, a read before the expiry gives
  -- the decision that was written, from the RAM tier alone: neither tier changes.
  pub get-set_cached :
      (c : Cache) (l2 : Option Store) (user_id action : String) (value : Bool) (seen : Option ℕ)
      (now read_at later : ℕ)
      → is_stale s c seen ≡ false
      → read_at < now + c.ram_ttl_ms
      → let w = set_cached s c l2 user_id action value seen now in
        get_cached s w.0 w.1 user_id action read_at later ≡ (some value, w.0, w.1)
  unfolding set_cached get_cached
  get-set_cached c none u a value seen now read_at later fresh live =
      ground (arith, get-ram_set_self c (key u a) (record { v = value; exp = now + c.ram_ttl_ms }))
  get-set_cached c (some l2) u a value seen now read_at later fresh live =
      ground (arith, get-ram_set_self c (key u a) (record { v = value; exp = now + c.ram_ttl_ms }))

  -- A decision whose generation was read before an invalidation, of one user or of all, is not
  -- written afterwards: both tiers stay as the invalidation left them.
  pub set_cached-invalidate :
      (c : Cache) (l2 : Option Store) (user : Option String) (user_id action : String)
      (value : Bool) (now : ℕ)
      → let i = invalidate s c l2 user in
        set_cached s i.0 i.1 user_id action value (some c.gen) now ≡ (i.0, i.1)
  unfolding set_cached invalidate
  set_cached-invalidate c none user u a value now = ground (arith, gen-invalidate c user)
  set_cached-invalidate c (some l2) user u a value now = ground (arith, gen-invalidate c user)

  after_read-IsValid :
      (c : Cache) (k : String) (now : ℕ) (r : Option (Option String) × Store)
      → IsValid c
      → IsValid (after_read s c k now r).1
  unfolding after_read
  after_read-IsValid c k now (none, l2) h = h
  after_read-IsValid c k now (some cached, l2) h = elim (Option-cases (decode cached)) [
    | inl miss ↦ rw (miss, after_read) h
    | inr (value, hit) ↦ rw (hit, after_read) (ram_set-IsValid c k _ h)
  ]

  read_l2-IsValid :
      (c : Cache) (l2 : Option Store) (k : String) (now : ℕ)
      → IsValid c
      → IsValid (read_l2 s c l2 k now).1
  unfolding read_l2
  read_l2-IsValid c none k now h = h
  read_l2-IsValid c (some l2) k now h = after_read-IsValid c k now (get_key l2 k) h

  delete_entry-IsValid :
      (c : Cache) (k : String) → IsValid c → IsValid (record c { ram = delete c.ram k })
  delete_entry-IsValid c k h = record {
    distinct = delete-IsMap c.ram k h.distinct;
    bounded = λ p. omega (arith, h.bounded p, size-delete-le c.ram k);
  }

  pub get_cached-IsValid :
      (c : Cache) (l2 : Option Store) (u a : String) (now later : ℕ)
      → IsValid c
      → IsValid (get_cached s c l2 u a now later).1
  unfolding get_cached
  get_cached-IsValid c l2 u a now later h = elim (Option-cases (get c.ram (key u a))) [
    | inl miss ↦ rw (miss, get_cached) (read_l2-IsValid c l2 (key u a) later h)
    | inr (e, hit) ↦ elim (Bool-cases (ltb now e.exp)) [
      | inl live ↦ rw (hit, get_cached) (rw live h)
      | inr dead ↦
          rw (hit, get_cached)
            (rw dead (read_l2-IsValid _ l2 (key u a) later (delete_entry-IsValid c (key u a) h)))
    ]
  ]

  pub set_cached-IsValid :
      (c : Cache) (l2 : Option Store) (u a : String) (value : Bool) (seen : Option ℕ) (now : ℕ)
      → IsValid c
      → IsValid (set_cached s c l2 u a value seen now).0
  unfolding set_cached
  set_cached-IsValid c l2 u a value seen now h =
      let kept = ram_set-IsValid c (key u a) (record { v = value; exp = now + c.ram_ttl_ms }) h in
      elim (Bool-cases (is_stale s c seen)) [
        | inl stale ↦ rw stale h
        | inr fresh ↦ rw fresh (written l2 kept)
      ]
    where
      written :
          (l2 : Option Store)
          → IsValid (ram_set c (key u a) (record { v = value; exp = now + c.ram_ttl_ms }))
          → IsValid
              (write_l2 s
                (ram_set c (key u a) (record { v = value; exp = now + c.ram_ttl_ms }))
                l2
                (key u a)
                value).0
      written none k = k
      written (some l2) k = k

  -- Every read, write and invalidation keeps the keys of the RAM tier distinct and, where a cap is
  -- set, their number within it.
  pub operations-IsValid :
      (c : Cache) (l2 : Option Store) (u a : String) (value : Bool) (seen : Option ℕ)
      (user : Option String) (now later : ℕ)
      → IsValid c
      → IsValid (get_cached s c l2 u a now later).1
        × IsValid (set_cached s c l2 u a value seen now).0
        × IsValid (invalidate s c l2 user).0
  unfolding invalidate
  operations-IsValid c none u a value seen user now later h = (
    get_cached-IsValid c none u a now later h,
    set_cached-IsValid c none u a value seen now h,
    invalidate-IsValid c user h,
  )
  operations-IsValid c (some l2) u a value seen user now later h = (
    get_cached-IsValid c (some l2) u a now later h,
    set_cached-IsValid c (some l2) u a value seen now h,
    invalidate-IsValid c user h,
  )

  after_read_sound :
      (c : Cache) (k : String) (now : ℕ) (r : Option (Option String) × Store) (value : Bool)
      → (after_read s c k now r).0 ≡ some value
      → (reply : Option String) × (r.0 ≡ some reply) × (decode reply ≡ some value)
  unfolding after_read
  after_read_sound c k now (none, l2) value h = absurd (cc)
  after_read_sound c k now (some cached, l2) value h = (cached, refl, ground arith)

  read_l2_sound :
      (c : Cache) (l2 : Option Store) (k : String) (now : ℕ) (value : Bool)
      → (read_l2 s c l2 k now).0 ≡ some value
      → (st : Store) × (reply : Option String) × (l2 ≡ some st)
        × ((get_key st k).0 ≡ some reply)
        × (decode reply ≡ some value)
  unfolding read_l2
  read_l2_sound c none k now value h = absurd (cc)
  read_l2_sound c (some st) k now value h =
      let (reply, eq, decoded) = after_read_sound c k now (get_key st k) value h in
      (st, reply, refl, eq, decoded)

  -- A decision that a read returns is a RAM entry that has not expired, or the store's own reply.
  pub get_cached_sound :
      (c : Cache) (l2 : Option Store) (u a : String) (now later : ℕ) (value : Bool)
      → (get_cached s c l2 u a now later).0 ≡ some value
      → ((e : RamEntry) × (get c.ram (key u a) ≡ some e) × (now < e.exp) × (e.v ≡ value))
        ⊎ ((st : Store) × (reply : Option String) × (l2 ≡ some st)
            × ((get_key st (key u a)).0 ≡ some reply)
            × (decode reply ≡ some value))
  unfolding get_cached
  get_cached_sound c l2 u a now later value h = elim (Option-cases (get c.ram (key u a))) [
    | inl miss ↦ inr (read_l2_sound c l2 (key u a) later value (rw (miss, get_cached) at h))
    | inr (e, hit) ↦ elim (Bool-cases (ltb now e.exp)) [
      | inl live ↦ inl (e, hit, ground arith, ground arith)
      | inr dead ↦ inr (
          read_l2_sound (record c { ram = delete c.ram (key u a) }) l2 (key u a) later value
            (ground arith))
    ]
  ]
