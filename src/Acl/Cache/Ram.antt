-- ===== src/Acl/Cache/Ram.antt =====
-- The RAM tier: its size cap, which entries the eviction drops, and what an invalidation clears.
use text.Mathlib.Text.{starts_with}
use nestjs_amqp.Prelude.{
  ℕ, ◌≤◌, ◌<◌, String, true, false, Option, none, some, [], ◌∷◌, ◌++◌, ◌==◌, if◌then◌else◌, ltb,
  template, starts_with-template, ◌≡◌, ◌≢◌, refl, ◌⊎◌, inl, inr, arith, eq_iff, eq_refl, ap, ◌∙◌,
  Bool-cases, ltb→lt,
}
use nestjs_amqp.JsMap.{JsMap, get, set, delete, size}
use nestjs_amqp.JsMap.Laws.{
  IsMap, get-set, get-delete, get-delete_where, set-IsMap, delete-IsMap, delete_where-IsMap,
  get_of_fresh, set_of_absent, get-append_absent, get-append_none, size-delete_where-le,
}
use nestjs_amqp.Acl.Cache.{RamEntry, Cache, key, user_prefix, evict, ram_set, invalidate_local_ram}

evict-size-le : (cap : ℕ) (m : JsMap RamEntry) → size (evict cap m) ≤ cap
unfolding evict
evict-size-le cap [] = omega arith
evict-size-le cap (e ∷ m) = ground (arith, evict-size-le cap m)

pub evict-IsMap : (cap : ℕ) (m : JsMap RamEntry) → IsMap m → IsMap (evict cap m)
unfolding evict
evict-IsMap cap [] h = tt
evict-IsMap cap ((k, e) ∷ m) (n, h) = ground (arith, n, h, evict-IsMap cap m h)

-- The cap drops whole entries and invents none.
pub get-evict :
    (cap : ℕ) (m : JsMap RamEntry) (j : String)
    → IsMap m
    → (get (evict cap m) j ≡ none) ⊎ (get (evict cap m) j ≡ get m j)
unfolding evict
get-evict cap [] j h = inl refl
get-evict cap ((k, e) ∷ m) j (n, h) =
    ground (arith, eq_iff k j, get_of_fresh m k n, get-evict cap m j h)

-- The newest entry survives, if the cap leaves room for any.
evict-append :
    (cap : ℕ) (m : JsMap RamEntry) (e : String × RamEntry)
    → 0 < cap
    → (p : JsMap RamEntry) × (q : JsMap RamEntry) × (m ≡ p ++ q)
      × (evict cap (m ++ e ∷ []) ≡ q ++ e ∷ [])
unfolding evict
evict-append cap [] e h = ([], [], refl, ground arith)
evict-append cap (d ∷ m) e h =
    let (p, q, split, kept) = evict-append cap m e h in
    elim (Bool-cases (ltb cap (size (d ∷ (m ++ e ∷ []))))) [
      | inl over ↦ (d ∷ p, q, ap (◌∷◌ d) split, rw over kept)
      | inr room ↦ ([], d ∷ m, refl, rw room)
    ]

pub get-delete_self : (m : JsMap RamEntry) (k : String) → get (delete m k) k ≡ none
get-delete_self m k = ground (arith, get-delete m k k, eq_refl k)

-- A decision that was just written is there, whatever was evicted to make room.
pub get-ram_set_self : (c : Cache) (k : String) (e : RamEntry) → get (ram_set c k e).ram k ≡ some e
unfolding ram_set
get-ram_set_self c k e =
    let m = delete c.ram k in
    let absent = get-delete_self c.ram k in
    rw (set_of_absent m k e absent) (elim (Bool-cases (ltb 0 c.max_ram_entries)) [
      | inl capped ↦ kept m absent capped
      | inr free ↦ rw free (get-append_absent m ((k, e) ∷ []) k absent ∙ (rw (eq_refl k)))
    ])
  where
    kept :
        (m : JsMap RamEntry)
        → get m k ≡ none
        → ltb 0 c.max_ram_entries ≡ true
        → get
            (if ltb 0 c.max_ram_entries
              then evict c.max_ram_entries (m ++ (k, e) ∷ [])
              else m ++ (k, e) ∷ [])
            k
          ≡ some e
    kept m absent capped =
        let (p, q, split, eq) = evict-append c.max_ram_entries m (k, e) (ltb→lt _ _ capped) in
        rw (capped, eq)
          (get-append_absent q ((k, e) ∷ []) k (get-append_none p q k (rw split at absent))
            ∙ (rw (eq_refl k)))

-- Writing one decision leaves every other one as it was, or evicts it.
pub get-ram_set_other :
    (c : Cache) (k j : String) (e : RamEntry)
    → IsMap c.ram
    → k ≢ j
    → (get (ram_set c k e).ram j ≡ none) ⊎ (get (ram_set c k e).ram j ≡ get c.ram j)
unfolding ram_set
get-ram_set_other c k j e h n = ground (
  arith,
  eq_iff k j,
  get-set (delete c.ram k) k j e,
  get-delete c.ram k j,
  get-evict c.max_ram_entries (set (delete c.ram k) k e) j
      (set-IsMap (delete c.ram k) k e (delete-IsMap c.ram k h)),
)

-- What every operation keeps: distinct keys, and the cap on their number when there is one.
pub record IsValid (c : Cache) : Type 0 where
  pub distinct : IsMap c.ram
  pub bounded : 0 < c.max_ram_entries → size c.ram ≤ c.max_ram_entries

pub ram_set-IsValid : (c : Cache) (k : String) (e : RamEntry) → IsValid c → IsValid (ram_set c k e)
unfolding ram_set
ram_set-IsValid c k e h =
    let kept = set-IsMap (delete c.ram k) k e (delete-IsMap c.ram k h.distinct) in
    record {
      distinct =
          ground (arith, kept, evict-IsMap c.max_ram_entries (set (delete c.ram k) k e) kept);
      bounded = λ p. ground (arith, evict-size-le c.max_ram_entries (set (delete c.ram k) k e));
    }

pub invalidate-IsValid :
    (c : Cache) (user_id : Option String) → IsValid c → IsValid (invalidate_local_ram c user_id)
unfolding invalidate_local_ram
invalidate-IsValid c none h = record { distinct = tt; bounded = λ p. omega arith }
invalidate-IsValid c (some u) h =
    let starts = λ (k : String). starts_with k (template (user_prefix u)) in
    elim (Bool-cases (u == "")) [
      | inl blank ↦ rw blank (record { distinct = tt; bounded = λ p. omega arith })
      | inr named ↦ rw named (record {
        distinct = delete_where-IsMap starts c.ram h.distinct;
        bounded = λ p. omega (arith, h.bounded p, size-delete_where-le starts c.ram);
      })
    ]

-- Every key of the user is under the prefix that an invalidation of that user clears.
pub starts_with-key :
    (user_id action : String)
    → starts_with (key user_id action) (template (user_prefix user_id)) ≡ true
unfolding key
starts_with-key user_id action = starts_with-template (user_prefix user_id) (action ∷ [])

-- After an invalidation no decision of that user is in the RAM tier.
pub get-invalidate_user :
    (c : Cache) (user_id action : String)
    → get (invalidate_local_ram c (some user_id)).ram (key user_id action) ≡ none
unfolding invalidate_local_ram
get-invalidate_user c u action = ground (
  arith,
  starts_with-key u action,
  get-delete_where (λ k. starts_with k (template (user_prefix u))) c.ram (key u action),
)

-- It leaves the keys outside the prefix alone.
pub get-invalidate_other :
    (c : Cache) (u j : String)
    → u ≢ ""
    → starts_with j (template (user_prefix u)) ≡ false
    → get (invalidate_local_ram c (some u)).ram j ≡ get c.ram j
unfolding invalidate_local_ram
get-invalidate_other c u j n h =
    ground
      (arith, eq_iff u "", get-delete_where (λ k. starts_with k (template (user_prefix u))) c.ram j)
