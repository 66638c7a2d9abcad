-- ===== src/JsMap/Laws.antt =====
-- The laws of `Map`: what a lookup gives after each operation, sizes, and distinct keys.
use nestjs_amqp.Prelude.{
  Bool-cases, inl, inr, subst, ◌≤◌, String, Bool, ◌≡◌, ◌≢◌, refl, none, some, [], ◌∷◌, ◌++◌, arith,
  ◌==◌, eq_iff, if◌then◌else◌, All,
}
use nestjs_amqp.JsMap.{JsMap, get, set, delete, size, delete_where, assign}

-- No key stands twice.
abbrev pub IsMap {ℓ} : {V : Type ℓ} → JsMap V → Type ℓ
IsMap [] = Unit
IsMap ((k, v) ∷ m) = All (λ e. e.0 ≢ k) m × IsMap m

module _ {ℓ} {V : Type ℓ} where
  pub get-set :
      (m : JsMap V) (k j : String) (v : V)
      → get (set m k v) j ≡ (if k == j then some v else get m j)
  get-set [] k j v = refl
  get-set ((i, w) ∷ m) k j v = ground (arith, eq_iff k j, eq_iff i k, eq_iff i j, get-set m k j v)

  pub get-delete :
      (m : JsMap V) (k j : String) → get (delete m k) j ≡ (if k == j then none else get m j)
  get-delete [] k j = ground arith
  get-delete ((i, w) ∷ m) k j = ground (arith, eq_iff k j, eq_iff i k, eq_iff i j, get-delete m k j)

  pub get-delete_where :
      (p : String → Bool) (m : JsMap V) (j : String)
      → get (delete_where p m) j ≡ (if p j then none else get m j)
  get-delete_where p [] j = ground arith
  get-delete_where p ((i, w) ∷ m) j = ground (arith, eq_iff i j, get-delete_where p m j)

  pub size-delete-le : (m : JsMap V) (k : String) → size (delete m k) ≤ size m
  size-delete-le [] k = omega arith
  size-delete-le ((i, w) ∷ m) k = ground (arith, size-delete-le m k)

  -- A key that a map has not got is no key of any entry.
  All-delete {κ} :
      (P : String × V → Type κ) (m : JsMap V) (k : String) → All P m → All P (delete m k)
  All-delete P [] k h = tt
  All-delete P (e ∷ m) k (p, h) = ground (arith, p, All-delete P m k h)

  All-delete_where {κ} :
      (P : String × V → Type κ) (p : String → Bool) (m : JsMap V)
      → All P m
      → All P (delete_where p m)
  All-delete_where P p [] h = tt
  All-delete_where P p (e ∷ m) (q, h) = ground (arith, q, All-delete_where P p m h)

  All-set :
      (m : JsMap V) (i k : String) (v : V)
      → k ≢ i
      → All (λ e. e.0 ≢ i) m
      → All (λ e. e.0 ≢ i) (set m k v)
  All-set [] i k v n h = (n, tt)
  All-set ((j, w) ∷ m) i k v n (p, h) = ground (arith, p, h, n, All-set m i k v n h)

  pub set-IsMap : (m : JsMap V) (k : String) (v : V) → IsMap m → IsMap (set m k v)
  set-IsMap [] k v h = (tt, tt)
  set-IsMap ((j, w) ∷ m) k v (n, h) =
      ground (arith, n, h, eq_iff j k, All-set m j k v, set-IsMap m k v h)

  pub delete-IsMap : (m : JsMap V) (k : String) → IsMap m → IsMap (delete m k)
  delete-IsMap [] k h = tt
  delete-IsMap ((j, w) ∷ m) k (n, h) =
      ground (arith, All-delete (λ e. e.0 ≢ j) m k n, delete-IsMap m k h)

  pub delete_where-IsMap : (p : String → Bool) (m : JsMap V) → IsMap m → IsMap (delete_where p m)
  delete_where-IsMap p [] h = tt
  delete_where-IsMap p ((j, w) ∷ m) (n, h) =
      ground (arith, All-delete_where (λ e. e.0 ≢ j) p m n, delete_where-IsMap p m h)

  pub get_of_fresh : (m : JsMap V) (k : String) → All (λ e. e.0 ≢ k) m → get m k ≡ none
  get_of_fresh [] k h = refl
  get_of_fresh ((j, w) ∷ m) k (n, h) = ground (arith, n, eq_iff j k, get_of_fresh m k h)

  -- A key that is absent is added at the end.
  pub set_of_absent :
      (m : JsMap V) (k : String) (v : V) → get m k ≡ none → set m k v ≡ m ++ (k, v) ∷ []
  set_of_absent [] k v h = refl
  set_of_absent ((j, w) ∷ m) k v h = ground (arith, set_of_absent m k v)

  pub get-append_absent : (m n : JsMap V) (k : String) → get m k ≡ none → get (m ++ n) k ≡ get n k
  get-append_absent [] n k h = refl
  get-append_absent ((j, w) ∷ m) n k h = ground (arith, get-append_absent m n k)

  pub get-append_none : (m n : JsMap V) (k : String) → get (m ++ n) k ≡ none → get n k ≡ none
  get-append_none [] n k h = h
  get-append_none ((j, w) ∷ m) n k h = ground (arith, get-append_none m n k)

  pub size-delete_where-le : (p : String → Bool) (m : JsMap V) → size (delete_where p m) ≤ size m
  size-delete_where-le p [] = omega arith
  size-delete_where-le p (e ∷ m) = ground (arith, size-delete_where-le p m)

  pub get-assign-none : (m n : JsMap V) (k : String) → get n k ≡ none → get (assign m n) k ≡ get m k
  get-assign-none m [] k h = refl
  get-assign-none m ((j, v) ∷ n) k h =
      ground (arith, h, eq_iff j k, get-set m j k v, get-assign-none (set m j v) n k)

  pub get-assign-some :
      (m n : JsMap V) (k : String) (v : V)
      → IsMap n
      → get n k ≡ some v
      → get (assign m n) k ≡ some v
  get-assign-some m [] k v i h = absurd (cc)
  get-assign-some m ((j, w) ∷ n) k v (f, i) h = elim (Bool-cases (j == k)) [
    | inl e ↦
        let g =
          get-assign-none (set m j w) n k
            (get_of_fresh n k (subst (λ x. All (λ e. e.0 ≢ x) n) ((eq_iff j k).0 e) f)) in
        ground (arith, e, g, h, get-set m j k w)
    | inr e ↦ get-assign-some (set m j w) n k v i (ground (arith, e, h))
  ]

module _ {V : Type 0} (P : V → Type 0) where
  pub All-set_value :
      (m : JsMap V) (k : String) (v : V) → All (λ e. P e.1) m → P v → All (λ e. P e.1) (set m k v)
  All-set_value [] k v h p = (p, tt)
  All-set_value ((j, w) ∷ m) k v (q, h) p = elim (Bool-cases (j == k)) [
    | inl e ↦ ground (arith, e, p, h)
    | inr e ↦ ground (arith, e, q, All-set_value m k v h p)
  ]

  pub All-delete_value :
      (m : JsMap V) (k : String) → All (λ e. P e.1) m → All (λ e. P e.1) (delete m k)
  All-delete_value [] k h = tt
  All-delete_value ((j, w) ∷ m) k (q, h) = elim (Bool-cases (j == k)) [
    | inl e ↦ ground (arith, e, All-delete_value m k h)
    | inr e ↦ ground (arith, e, q, All-delete_value m k h)
  ]

  pub All-get_value :
      (m : JsMap V) (k : String) (v : V) → All (λ e. P e.1) m → get m k ≡ some v → P v
  All-get_value [] k v h g = absurd (cc)
  All-get_value ((j, w) ∷ m) k v (q, h) g = elim (Bool-cases (j == k)) [
    | inl e ↦ let f : w ≡ v = ground (arith, e, g) in subst P f q
    | inr e ↦ All-get_value m k v h (ground (arith, e, g))
  ]
