-- ===== src/Admin/Paths/Edits.antt =====
-- What an edit of a route leaves to its service.
use nestjs_amqp.Prelude.{
  String, Bool, true, false, not, Option, none, some, List, [], ◌∷◌, ◌++◌, if◌then◌else◌, select,
  includes, is_empty, dedup, In, In-append, In-append_left, In-append_right, In-dedup, dedup_of_In,
  In-select, select_of_In, ◌≡◌, ◌↔◌, ◌⊎◌, inl, inr, refl, sym, ap, ◌∙◌, arith, Bool-cases, subst,
  find, Option-cases, ◌&&◌,
}
use nestjs_amqp.Admin.Diff.{StoredHttpPath, is_enabled}
use nestjs_amqp.Prelude.Result.{AppError, Result, ok, err}
use nestjs_amqp.Admin.Manifest.{route_key_of}
use nestjs_amqp.Admin.Paths.{
  user_overridable_fields, classify, was_modified, old_overrides, PathRepository, Paths,
  assert_no_route_conflict, create, clash, missing, create_valid, unless_missing, is_id, ◌and_then◌,
}

-- Some field that changed is not one of those that a user may override.
abbrev pub IsHard : List String → Type 0
IsHard changed = (g : String) × In g changed × (includes user_overridable_fields g ≡ false)

locks :
    (existing : Option StoredHttpPath) (changed released : List String)
    → (classify existing changed released).0 ≡ true
    → IsHard changed ⊎ (was_modified existing ≡ true)
unfolding classify
locks existing changed released h =
    go (select (λ f. not (includes user_overridable_fields f)) changed) refl h
  where
    go :
        (hard : List String)
        → select (λ f. not (includes user_overridable_fields f)) changed ≡ hard
        → (if not (is_empty hard) then true else was_modified existing) ≡ true
        → IsHard changed ⊎ (was_modified existing ≡ true)
    go [] e h = inr h
    go (g ∷ gs) e h =
        let (there, kept) =
          In-select (λ f. not (includes user_overridable_fields f)) changed g
            (subst (In g) (sym e) (inl refl)) in
        inl (g, there, ground (arith, kept))

locked_by :
    (existing : Option StoredHttpPath) (changed released : List String)
    → IsHard changed ⊎ (was_modified existing ≡ true)
    → (classify existing changed released).0 ≡ true
unfolding classify
locked_by existing changed released (inl (g, i, hard)) =
    go (select (λ f. not (includes user_overridable_fields f)) changed)
      (select_of_In (λ f. not (includes user_overridable_fields f)) changed g i (ap not hard))
  where
    go :
        (hards : List String)
        → In g hards
        → (if not (is_empty hards) then true else was_modified existing) ≡ true
    go [] i = elim i [ ]
    go (h ∷ hs) i = refl
locked_by existing changed released (inr old) = ground (arith, old)

kept_overrides :
    (existing : Option StoredHttpPath) (changed released : List String) (f : String)
    → In f (classify existing changed released).1
    → (In f (old_overrides existing) ⊎ (In f changed × (includes user_overridable_fields f ≡ true)))
      × (includes released f ≡ false)
unfolding classify
kept_overrides existing changed released f i =
    let soft = select (λ g. includes user_overridable_fields g) changed in
    let (j, kept) =
      In-select (λ g. not (includes released g)) (dedup (old_overrides existing ++ soft)) f i in
    (
      elim (In-append (old_overrides existing) soft f
          (In-dedup (old_overrides existing ++ soft) f j)) [
            | inl old ↦ inl old
            | inr new ↦ inr (In-select (λ g. includes user_overridable_fields g) changed f new)
          ],
      ground (arith, kept),
    )

overrides_kept :
    (existing : Option StoredHttpPath) (changed released : List String) (f : String)
    → (In f (old_overrides existing) ⊎ (In f changed × (includes user_overridable_fields f ≡ true)))
      × (includes released f ≡ false)
    → In f (classify existing changed released).1
unfolding classify
overrides_kept existing changed released f (origin, kept) =
    let soft = select (λ g. includes user_overridable_fields g) changed in
    select_of_In (λ g. not (includes released g)) (dedup (old_overrides existing ++ soft)) f
      (dedup_of_In (old_overrides existing ++ soft) f (elim origin [
        | inl old ↦ In-append_left (old_overrides existing) soft f old
        | inr (i, soft_field) ↦
            In-append_right (old_overrides existing) soft f
              (select_of_In (λ g. includes user_overridable_fields g) changed f i soft_field)
      ]))
      (ap not kept)

-- An edit locks a row exactly when it changed a field outside the overridable ones or the row was
-- locked before, and it leaves as overrides exactly the old ones and the overridable fields changed,
-- less those released.
pub classify_iff :
    (existing : Option StoredHttpPath) (changed released : List String) (f : String)
    → (((classify existing changed released).0 ≡ true)
        ↔ (IsHard changed ⊎ (was_modified existing ≡ true)))
      × (In f (classify existing changed released).1 ↔ (
          (In f (old_overrides existing)
            ⊎ (In f changed × (includes user_overridable_fields f ≡ true)))
          × (includes released f ≡ false)))
classify_iff existing changed released f = (
  (locks existing changed released, locked_by existing changed released),
  (kept_overrides existing changed released f, overrides_kept existing changed released f),
)

find_of_In :
    {A : Type 0} (p : A → Bool) (xs : List A) (x : A)
    → In x xs
    → p x ≡ true
    → (y : A) × (find p xs ≡ some y)
find_of_In p [] x i h = elim i [ ]
find_of_In p (z ∷ xs) x (inl e) h = (z, let hit : p z ≡ true = ap p e ∙ h in rw hit refl)
find_of_In p (z ∷ xs) x (inr i) h = elim (Bool-cases (p z)) [
  | inl hit ↦ (z, rw hit refl)
  | inr miss ↦ let (y, e) = find_of_In p xs x i h in (y, rw miss e)
]

module _ (quote : String → String) (upper : String → String) (repo : PathRepository) where
  abbrev assert :
      String → Option String → Paths quote upper repo → Result (Unit {0}) × Paths quote upper repo
  assert = assert_no_route_conflict quote upper repo

  conflicts :
      (key : String) (st : Paths quote upper repo) (clashes : List StoredHttpPath)
      (p : StoredHttpPath) (id : String)
      → repo.find_by_route_key st.db key ≡ ok clashes
      → In p clashes
      → is_enabled p ≡ true
      → p.id ≡ some id
      → (e : AppError) × (assert key none st ≡ (err e, st))
  unfolding assert_no_route_conflict
  conflicts key st clashes p id listed i on named =
      let test : StoredHttpPath → Bool =
        λ x. is_enabled x && not (is_id quote upper repo x.id none) in
      let passes : test p ≡ true =
        ap (λ b. b && not (is_id quote upper repo p.id none)) on
        ∙ ap (λ o. not (is_id quote upper repo o none)) named in
      let (q, first) = find_of_In test clashes p i passes in
      (
        _,
        ap
              (λ r.
                ◌and_then◌ quote upper repo (r, st)
                  λ found st'. clash quote upper repo key (find test found) st')
              listed
            ∙ ap (λ o. clash quote upper repo key o st) first,
      )

  create_refused :
      (model : StoredHttpPath) (actor : Option String) (st : Paths quote upper repo) (e : AppError)
      → assert (route_key_of quote upper model.content) none st ≡ (err e, st)
      → create_valid quote upper repo model actor st ≡ (err e, st)
  create_refused model actor st e h = rw h refl

  -- A user cannot create a route with the method and path of a row that is enabled and has an id:
  -- the call is an error, and nothing is stored or noted.
  pub create-conflict :
      (model : StoredHttpPath) (actor : Option String) (st : Paths quote upper repo)
      (clashes : List StoredHttpPath) (p : StoredHttpPath) (id : String)
      → repo.find_by_route_key st.db (route_key_of quote upper model.content) ≡ ok clashes
      → In p clashes
      → is_enabled p ≡ true
      → p.id ≡ some id
      → (e : AppError) × (create quote upper repo model actor st ≡ (err e, st))
  unfolding create
  create-conflict model actor st clashes p id listed i on named =
      let key = route_key_of quote upper model.content in
      let (e, taken) = conflicts key st clashes p id listed i on named in
      let refused : create_valid quote upper repo model actor st ≡ (err e, st) =
        create_refused model actor st e taken in
      elim (Option-cases
        (missing quote upper repo model.content ("name" ∷ "method" ∷ "path" ∷ "topic" ∷ []))) [
          | inl complete ↦ (
            e,
            ap
                  (λ o.
                    unless_missing quote upper repo o (create_valid quote upper repo model actor st)
                      st)
                  complete
                ∙ refused,
          )
          | inr (f, absent) ↦ (
            _,
            ap
                (λ o.
                  unless_missing quote upper repo o (create_valid quote upper repo model actor st)
                    st)
                absent,
          )
        ]
