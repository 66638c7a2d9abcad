-- ===== src/Prelude/Lists.antt =====
-- Lists over the native numbers: lengths, the array methods `some`, `every`, `find` and `includes`,
-- and predicates on all elements.
use Prim.Native.Nat.{ℕ, suc, ◌+◌}
use Prim.Native.String
use Prim.Native.String.{String}
use mathlib.Core.Path.{◌≡◌, refl, sym, ap, ◌∙◌}
use mathlib.Core.Logic.{◌⊎◌, inl, inr, ◌≢◌}
use mathlib.Core.Bool.{Bool, true, false, not, ◌&&◌, ◌||◌}
use mathlib.Core.Option.{Option, none, some}
use mathlib.Core.List.{List, [], ◌∷◌, ◌++◌, map}
use native.Mathlib.Omega.{arith}
use text.Mathlib.Text.{◌==◌}
use text.Mathlib.TextEquality.{eq_iff}
use nestjs_amqp.Prelude.Tests.{if◌then◌else◌, Bool-cases}

module _ {ℓ} {A : Type ℓ} where
  abbrev pub length : List A → ℕ
  length [] = 0
  length (x ∷ xs) = suc (length xs)

  pub length-append : (xs ys : List A) → length (xs ++ ys) ≡ length xs + length ys
  length-append [] ys = omega arith
  length-append (x ∷ xs) ys = omega (arith, length-append xs ys)

  -- xs.some(p)
  abbrev pub any : (A → Bool) → List A → Bool
  any p [] = false
  any p (x ∷ xs) = p x || any p xs

  -- xs.every(p)
  abbrev pub all : (A → Bool) → List A → Bool
  all p [] = true
  all p (x ∷ xs) = p x && all p xs

  -- xs.find(p)
  abbrev pub find : (A → Bool) → List A → Option A
  find p [] = none
  find p (x ∷ xs) = if p x then some x else find p xs

  -- xs.filter(p)
  abbrev pub select : (A → Bool) → List A → List A
  select p [] = []
  select p (x ∷ xs) = let rest = select p xs in if p x then x ∷ rest else rest

  abbrev pub All {κ} : (A → Type κ) → List A → Type κ
  All P [] = Unit
  All P (x ∷ xs) = P x × All P xs

  pub All-append {κ} : (P : A → Type κ) (xs ys : List A) → All P xs → All P ys → All P (xs ++ ys)
  All-append P [] ys h k = k
  All-append P (x ∷ xs) ys (p, h) k = (p, All-append P xs ys h k)

-- xs.includes(a), over strings
abbrev pub includes : List String → String → Bool
includes [] a = false
includes (x ∷ xs) a = x == a || includes xs a

-- a is in the list; the place is kept
abbrev pub In : {A : Type 0} → A → List A → Type 0
In a [] = ⊥
In a (x ∷ xs) = (x ≡ a) ⊎ In a xs

abbrev pub is_empty {ℓ} : {A : Type ℓ} → List A → Bool
is_empty [] = true
is_empty (x ∷ xs) = false

-- Array.from(new Set(xs)): the first of equal strings stays.
unfoldable pub dedup : List String → List String
dedup [] = []
dedup (x ∷ xs) = x ∷ select (λ y. not (y == x)) (dedup xs)

-- xs.join(sep)
abbrev pub join : String → List String → String
join sep [] = ""
join sep (x ∷ xs) = String.◌++◌ x (join_rest xs)
  where
    join_rest : List String → String
    join_rest [] = ""
    join_rest (y ∷ ys) = String.◌++◌ sep (String.◌++◌ y (join_rest ys))

-- `some` answers true exactly when an element passes the test.
pub any_witness :
    {A : Type 0} (p : A → Bool) (xs : List A) → any p xs ≡ true → (x : A) × In x xs × (p x ≡ true)
any_witness p [] h = absurd (cc)
any_witness p (x ∷ xs) h = elim (Bool-cases (p x)) [
  | inl here ↦ (x, inl refl, here)
  | inr miss ↦ let (y, there, holds) = any_witness p xs (rw miss at h) in (y, inr there, holds)
]

pub any_of_In :
    {A : Type 0} (p : A → Bool) (xs : List A) (x : A) → In x xs → p x ≡ true → any p xs ≡ true
any_of_In p [] x i h = elim i [ ]
any_of_In p (y ∷ xs) x (inl e) h = ground (arith, ap p e)
any_of_In p (y ∷ xs) x (inr i) h = ground (arith, any_of_In p xs x i h)

pub includes_witness : (xs : List String) (a : String) → includes xs a ≡ true → In a xs
includes_witness [] a h = absurd (cc)
includes_witness (x ∷ xs) a h = elim (Bool-cases (x == a)) [
  | inl here ↦ inl ((eq_iff x a).0 here)
  | inr miss ↦ inr (includes_witness xs a (rw miss at h))
]

pub includes_of_In : (xs : List String) (a : String) → In a xs → includes xs a ≡ true
includes_of_In [] a i = elim i [ ]
includes_of_In (x ∷ xs) a (inl e) = ground (arith, eq_iff x a)
includes_of_In (x ∷ xs) a (inr i) = ground (arith, includes_of_In xs a i)

-- `filter` keeps exactly the elements that pass the test.
pub In-select :
    {A : Type 0} (p : A → Bool) (xs : List A) (x : A) → In x (select p xs) → In x xs × (p x ≡ true)
In-select p [] x i = elim i [ ]
In-select p (y ∷ xs) x i = elim (Bool-cases (p y)) [
  | inl keep ↦ elim (keep_cases keep i) [
    | inl e ↦ (inl e, ground (arith, ap p e))
    | inr j ↦ let (there, holds) = In-select p xs x j in (inr there, holds)
  ]
  | inr drop ↦ let (there, holds) = In-select p xs x (rw drop at i) in (inr there, holds)
]
  where
    keep_cases : p y ≡ true → In x (select p (y ∷ xs)) → (y ≡ x) ⊎ In x (select p xs)
    keep_cases keep i = rw keep at i

pub select_of_In :
    {A : Type 0} (p : A → Bool) (xs : List A) (x : A) → In x xs → p x ≡ true → In x (select p xs)
select_of_In p [] x i h = elim i [ ]
select_of_In p (y ∷ xs) x (inl e) h = let keep : p y ≡ true = ap p e ∙ h in rw keep (inl e)
select_of_In p (y ∷ xs) x (inr i) h = elim (Bool-cases (p y)) [
  | inl keep ↦ rw keep (inr (select_of_In p xs x i h))
  | inr drop ↦ rw drop (select_of_In p xs x i h)
]

pub In-map :
    {A B : Type 0} (f : A → B) (xs : List A) (b : B)
    → In b (map f xs)
    → (a : A) × In a xs × (f a ≡ b)
In-map f [] b i = elim i [ ]
In-map f (x ∷ xs) b (inl e) = (x, inl refl, e)
In-map f (x ∷ xs) b (inr i) = let (a, there, e) = In-map f xs b i in (a, inr there, e)

pub map_of_In : {A B : Type 0} (f : A → B) (xs : List A) (a : A) → In a xs → In (f a) (map f xs)
map_of_In f [] a i = elim i [ ]
map_of_In f (x ∷ xs) a (inl e) = inl (ap f e)
map_of_In f (x ∷ xs) a (inr i) = inr (map_of_In f xs a i)

pub In-append_left : {A : Type 0} (xs ys : List A) (x : A) → In x xs → In x (xs ++ ys)
In-append_left [] ys x i = elim i [ ]
In-append_left (z ∷ xs) ys x (inl e) = inl e
In-append_left (z ∷ xs) ys x (inr i) = inr (In-append_left xs ys x i)

pub In-append_right : {A : Type 0} (xs ys : List A) (x : A) → In x ys → In x (xs ++ ys)
In-append_right [] ys x i = i
In-append_right (z ∷ xs) ys x i = inr (In-append_right xs ys x i)

pub In-append : {A : Type 0} (xs ys : List A) (x : A) → In x (xs ++ ys) → In x xs ⊎ In x ys
In-append [] ys x i = inr i
In-append (z ∷ xs) ys x (inl e) = inl (inl e)
In-append (z ∷ xs) ys x (inr i) = elim (In-append xs ys x i) [ inl j ↦ inl (inr j) | inr j ↦ inr j ]

pub select-append_none :
    {A : Type 0} (p : A → Bool) (xs ys : List A)
    → select p xs ≡ []
    → select p (xs ++ ys) ≡ select p ys
select-append_none p [] ys h = refl
select-append_none p (x ∷ xs) ys h = elim (Bool-cases (p x)) [
  | inl keep ↦ absurd (keep_cases keep h)
  | inr dropped ↦ rw dropped (select-append_none p xs ys (rw dropped at h))
]
  where
    keep_cases : p x ≡ true → select p (x ∷ xs) ≢ []
    keep_cases keep h = let k : x ∷ select p xs ≡ [] = rw keep at h in cc

-- `dedup` keeps every element.
pub dedup_of_In : (xs : List String) (a : String) → In a xs → In a (dedup xs)
unfolding dedup
dedup_of_In [] a i = elim i [ ]
dedup_of_In (x ∷ xs) a (inl e) = inl e
dedup_of_In (x ∷ xs) a (inr i) = elim (Bool-cases (a == x)) [
  | inl here ↦ inl (sym ((eq_iff a x).0 here))
  | inr other ↦
      inr (select_of_In (λ y. not (y == x)) (dedup xs) a (dedup_of_In xs a i) (ap not other))
]

pub In-dedup : (xs : List String) (a : String) → In a (dedup xs) → In a xs
unfolding dedup
In-dedup [] a i = elim i [ ]
In-dedup (x ∷ xs) a (inl e) = inl e
In-dedup (x ∷ xs) a (inr i) = inr (In-dedup xs a (In-select (λ y. not (y == x)) (dedup xs) a i).0)
