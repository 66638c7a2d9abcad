-- ===== src/Admin/Order.antt =====
-- util/path-order.ts: the order in which the gateway loads its routes.
pub mod Specific
mod Tests
use Prim.Native.String
use Prim.Native.Char.{code}
use Prim.Native.Nat.{Ordering}
use text.Mathlib.Text.{starts_with}
use nestjs_amqp.Prelude.{
  ℕ, String, Bool, true, false, List, [], ◌∷◌, ◌==◌, ◌&&◌, ◌||◌, not, if◌then◌else◌, select, split,
  nat_eq, ltb,
}
use nestjs_amqp.Prelude.Sort.{sort_by}
use nestjs_amqp.Prelude.TextOrder.{text_ltb}

-- segment.includes('*')
abbrev has_star : String → Bool
has_star String.[] = false
has_star (String.◌∷◌ c s) = let rest = has_star s in nat_eq (code c) b'*' || rest

-- static, parametric or wildcard
unfoldable pub segment_kind : String → ℕ
segment_kind segment =
    if starts_with segment ":" then 1 else if segment == "*" || has_star segment then 2 else 0

unfoldable pub split_segments : String → List String
split_segments path = select (λ s. not (s == "")) (split b'/' path)

-- the segments at one place, and the answer of the places behind it
unfoldable pub compare_heads : String → String → Ordering → Ordering
compare_heads x y rest =
    if ltb (segment_kind x) (segment_kind y)
    then Ordering.lt
    else if ltb (segment_kind y) (segment_kind x)
    then Ordering.gt
    else if nat_eq (segment_kind x) 0 && not (x == y)
    then if text_ltb x y then Ordering.lt else Ordering.gt
    else rest

unfoldable pub compare_segments : List String → List String → Ordering
compare_segments [] [] = Ordering.eq
compare_segments [] (y ∷ ys) = Ordering.lt
compare_segments (x ∷ xs) [] = Ordering.gt
compare_segments (x ∷ xs) (y ∷ ys) = let rest = compare_segments xs ys in compare_heads x y rest

-- comparePaths: the sign of the number
unfoldable pub compare_paths : String → String → Ordering
compare_paths a b = compare_segments (split_segments a) (split_segments b)

abbrev is_le : Ordering → Bool
is_le Ordering.gt = false
is_le o = true

-- orderPaths, over anything with a path
module _ {A : Type 0} (path_of : A → String) where
  abbrev precedes : A → A → Bool
  precedes a b = is_le (compare_paths (path_of a) (path_of b))

  unfoldable pub order_paths : List A → List A
  order_paths paths = sort_by precedes paths
