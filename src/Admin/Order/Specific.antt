-- ===== src/Admin/Order/Specific.antt =====
-- The order is a total preorder, and a static route comes before the patterns that match it.
use Prim.Native.Char.{code}
use text.Mathlib.TextBridge.{IsPrefix}
use nestjs_amqp.Prelude.{
  ◌⊎◌, ℕ, String, Bool, true, false, List, [], ◌∷◌, ◌==◌, ◌&&◌, ◌≡◌, not, if◌then◌else◌, All,
  nat_eq, ltb,
}
use nestjs_amqp.Prelude.TextOrder.{text_ltb}
use nestjs_amqp.Admin.Order.{segment_kind, split_segments}

-- the answer at one place, from the kinds and the answer for equal kinds
abbrev by_kind : ℕ → ℕ → Bool → Bool
by_kind k l same = if ltb k l then true else if ltb l k then false else same

abbrev by_text : String → String → Bool → Bool
by_text x y rest = if nat_eq (segment_kind x) 0 && not (x == y) then text_ltb x y else rest

-- A segment with a ':' first is a parameter, one with a '*' in it a wildcard, and any other plain.
abbrev pub IsParameter : String → Type 0
IsParameter s = IsPrefix ":" s

abbrev pub IsWildcard : String → Type 0
IsWildcard String.[] = ⊥
IsWildcard (String.◌∷◌ c s) = (code c ≡ b'*') ⊎ IsWildcard s

abbrev pub IsPlain : String → Type 0
IsPlain s = (¬ IsParameter s) × (¬ IsWildcard s)

-- A pattern matches a path letter for letter: a parameter takes one segment, a wildcard all that is
-- left.
abbrev pub Covers : List String → List String → Type 0
Covers [] [] = Unit
Covers [] (y ∷ ys) = ⊥
Covers (x ∷ xs) [] = ⊥
Covers (x ∷ xs) (y ∷ ys) = IsWildcard x ⊎ ((IsParameter x ⊎ (x ≡ y)) × Covers xs ys)

-- The first of two routes has a parameter or a wildcard and takes the requests of the second, a route
-- of plain segments.
abbrev pub Shadows : String → String → Type 0
Shadows a b =
    (¬ All IsPlain (split_segments a))
    × All IsPlain (split_segments b)
    × Covers (split_segments a) (split_segments b)

module _ {A : Type 0} (path_of : A → String) where
  -- No static route stands behind a route that takes its requests.
  abbrev pub IsUnshadowed : List A → Type 0
  IsUnshadowed [] = Unit
  IsUnshadowed (a ∷ rest) = All (λ b. ¬ Shadows (path_of a) (path_of b)) rest × IsUnshadowed rest
