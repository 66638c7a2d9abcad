-- ===== src/Acl/Race/Coherence/Entries.antt =====
-- The entries of the RAM tier under the operations of the cache.
use nestjs_amqp.Prelude.{
  ℕ, ◌+◌, String, Bool, none, some, List, [], ◌∷◌, ◌++◌, ◌≡◌, All, All-append, arith, eq_iff, inl,
  inr, ◌⊎◌, Bool-cases, template,
}
use text.Mathlib.Text.{starts_with}
use nestjs_amqp.JsMap.{get}
use nestjs_amqp.JsMap.Laws.{get-delete, get-delete_where}
use nestjs_amqp.Acl.Cache.{
  Cache, CacheStore, key, user_prefix, get_cached, set_cached, ram_set, invalidate_local_ram,
  is_stale,
}
use nestjs_amqp.Acl.Race.{Query, action_key}

abbrev pub full_key : Query → String
full_key q = key q.user_id (action_key q)

pub All-split :
    {A : Type 0} (P : A → Type 0) (xs ys : List A) (a : A)
    → All P (xs ++ a ∷ ys)
    → All P xs × P a × All P ys
All-split P [] ys a (p, h) = (tt, p, h)
All-split P (x ∷ xs) ys a (p, h) = let (l, m, r) = All-split P xs ys a h in ((p, l), m, r)

pub All-join :
    {A : Type 0} (P : A → Type 0) (xs ys : List A) (a : A)
    → All P xs
    → P a
    → All P ys
    → All P (xs ++ a ∷ ys)
All-join P xs ys a l m r = All-append P xs (a ∷ ys) l (m, r)

pub All-mono :
    {A : Type 0} (P Q : A → Type 0) (xs : List A) → ((a : A) → P a → Q a) → All P xs → All Q xs
All-mono P Q [] f h = tt
All-mono P Q (x ∷ xs) f (p, h) = (f x p, All-mono P Q xs f h)

-- reading the RAM tier alone gives an entry or leaves it as it was, less an expired one
pub get-get_cached :
    (s : CacheStore) (c : Cache) (u a j : String) (now later : ℕ)
    → (get (get_cached s c none u a now later).1.ram j ≡ none)
      ⊎ (get (get_cached s c none u a now later).1.ram j ≡ get c.ram j)
unfolding get_cached
get-get_cached s c u a j now later =
    ground (arith, get-delete c.ram (key u a) j, eq_iff (key u a) j)

pub gen-get_cached :
    (s : CacheStore) (c : Cache) (u a : String) (now later : ℕ)
    → (get_cached s c none u a now later).1.gen ≡ c.gen
unfolding get_cached
gen-get_cached s c u a now later = ground arith

pub get-flush :
    (c : Cache) (u j : String)
    → (get (invalidate_local_ram c (some u)).ram j ≡ none)
      ⊎ (get (invalidate_local_ram c (some u)).ram j ≡ get c.ram j)
unfolding invalidate_local_ram
get-flush c u j =
    ground (arith, get-delete_where (λ k. starts_with k (template (user_prefix u))) c.ram j)

-- a stale store changes nothing, a fresh one writes one entry
pub set_cached_cases :
    (s : CacheStore) (c : Cache) (u a : String) (v : Bool) (seen now : ℕ)
    → ((set_cached s c none u a v (some seen) now).0 ≡ c)
      ⊎ ((seen ≡ c.gen)
          × ((set_cached s c none u a v (some seen) now).0
              ≡ ram_set c (key u a) (record { v = v; exp = now + c.ram_ttl_ms })))
unfolding set_cached
set_cached_cases s c u a v seen now = elim (Bool-cases (is_stale s c (some seen))) [
  | inl stale ↦ inl (rw stale)
  | inr fresh ↦ inr (ground arith, rw fresh)
]
