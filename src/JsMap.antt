-- ===== src/JsMap.antt =====
-- JavaScript's `Map` with string keys, as the list of its entries in insertion order.
pub mod Laws
use nestjs_amqp.Prelude.{
  String, Bool, true, false, Option, none, some, List, [], ◌∷◌, ◌==◌, if◌then◌else◌, ℕ, length,
}

-- A map in insertion order; its keys are distinct (`Laws`).
abbrev pub JsMap {ℓ} : Type ℓ → Type ℓ
JsMap V = List (String × V)

module _ {ℓ} {V : Type ℓ} where
  -- m.get(k)
  abbrev pub get : JsMap V → String → Option V
  get [] k = none
  get ((j, v) ∷ m) k = if j == k then some v else get m k

  abbrev is_some : Option V → Bool
  is_some none = false
  is_some (some v) = true

  -- m.has(k)
  abbrev pub has : JsMap V → String → Bool
  has m k = is_some (get m k)

  -- m.set(k, v): a new key goes to the end, an old one keeps its place.
  abbrev pub set : JsMap V → String → V → JsMap V
  set [] k v = (k, v) ∷ []
  set ((j, w) ∷ m) k v = if j == k then (j, v) ∷ m else (j, w) ∷ set m k v

  -- m.delete(k)
  abbrev pub delete : JsMap V → String → JsMap V
  delete [] k = []
  delete ((j, w) ∷ m) k = let rest = delete m k in if j == k then rest else (j, w) ∷ rest

  -- m.size
  abbrev pub size : JsMap V → ℕ
  size m = length m

  -- deletes the keys that pass a test, as `for (k of m.keys()) if (p(k)) m.delete(k)` does
  abbrev pub delete_where : (String → Bool) → JsMap V → JsMap V
  delete_where p [] = []
  delete_where p ((j, w) ∷ m) = let rest = delete_where p m in if p j then rest else (j, w) ∷ rest

  -- Object.assign(m, n), or { ...m, ...n }
  abbrev pub assign : JsMap V → JsMap V → JsMap V
  assign m [] = m
  assign m ((k, v) ∷ n) = assign (set m k v) n
