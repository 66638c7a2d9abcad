-- ===== src/Prelude/Sort.antt =====
-- `Array.prototype.sort`, which is stable, as insertion sort under a Boolean "may stand before".
use Prim.Native.String.{String, compare}
use Prim.Native.Nat.{Ordering}
use mathlib.Core.Path.{◌≡◌}
use mathlib.Core.Logic.{inl, inr}
use mathlib.Core.Bool.{Bool, true, false}
use mathlib.Core.List.{List, [], ◌∷◌, Perm}
use mathlib.Core.List.Perm
use native.Mathlib.Omega.{arith}
use nestjs_amqp.Prelude.Tests.{if◌then◌else◌, Bool-cases}
use nestjs_amqp.Prelude.Lists.{All}

-- the order of strings, by code points
abbrev pub string_le : String → String → Bool
string_le a b = elim (compare a b) [ Ordering.gt ↦ false | _ ↦ true ]

module _ {A : Type 0} (le : A → A → Bool) where
  unfoldable pub insert_by : A → List A → List A
  insert_by x [] = x ∷ []
  insert_by x (y ∷ ys) = let rest = insert_by x ys in if le x y then x ∷ y ∷ ys else y ∷ rest

  -- equal elements keep their order: an element goes before the first one that it may precede
  unfoldable pub sort_by : List A → List A
  unfolding insert_by
  sort_by [] = []
  sort_by (x ∷ xs) = insert_by x (sort_by xs)

  pub insert_by-perm : (x : A) (xs : List A) → Perm (insert_by x xs) (x ∷ xs)
  unfolding insert_by
  insert_by-perm x [] = Perm.refl _
  insert_by-perm x (y ∷ ys) = elim (Bool-cases (le x y)) [
    | inl before ↦ rw before (Perm.refl _)
    | inr after ↦ rw after (Perm.trans (Perm.cons y (insert_by-perm x ys)) (Perm.swap x y ys))
  ]

  -- Sorting loses nothing and adds nothing.
  pub sort_by-perm : (xs : List A) → Perm (sort_by xs) xs
  unfolding sort_by
  sort_by-perm [] = Perm.refl _
  sort_by-perm (x ∷ xs) = Perm.trans (insert_by-perm x (sort_by xs)) (Perm.cons x (sort_by-perm xs))

  -- Each element may precede every later one.
  abbrev pub IsSorted : List A → Type 0
  IsSorted [] = Unit
  IsSorted (x ∷ xs) = All (λ y. le x y ≡ true) xs × IsSorted xs

  module _ (le_total : (a b : A) → le a b ≡ false → le b a ≡ true)
      (le_trans : (a b c : A) → le a b ≡ true → le b c ≡ true → le a c ≡ true) where
    All-le_trans :
        (a b : A) (xs : List A)
        → le a b ≡ true
        → All (λ y. le b y ≡ true) xs
        → All (λ y. le a y ≡ true) xs
    All-le_trans a b [] h k = tt
    All-le_trans a b (x ∷ xs) h (p, k) = (le_trans a b x h p, All-le_trans a b xs h k)

    All-insert_by : (P : A → Type 0) (x : A) (xs : List A) → P x → All P xs → All P (insert_by x xs)
    unfolding insert_by
    All-insert_by P x [] p h = (p, tt)
    All-insert_by P x (y ∷ ys) p (q, h) = ground (arith, p, q, h, All-insert_by P x ys p h)

    insert_by-IsSorted : (x : A) (xs : List A) → IsSorted xs → IsSorted (insert_by x xs)
    unfolding insert_by
    insert_by-IsSorted x [] h = (tt, tt)
    insert_by-IsSorted x (y ∷ ys) (p, h) = elim (Bool-cases (le x y)) [
      | inl before ↦ rw before ((before, All-le_trans x y ys before p), (p, h))
      | inr after ↦ rw after (
        All-insert_by (λ z. le y z ≡ true) x ys (le_total x y after) p,
        insert_by-IsSorted x ys h,
      )
    ]

    -- For a total and transitive test the result is sorted.
    pub sort_by-IsSorted : (xs : List A) → IsSorted (sort_by xs)
    unfolding sort_by
    sort_by-IsSorted [] = tt
    sort_by-IsSorted (x ∷ xs) = insert_by-IsSorted x (sort_by xs) (sort_by-IsSorted xs)
