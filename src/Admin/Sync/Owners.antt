-- ===== src/Admin/Sync/Owners.antt =====
-- Whose rows a manifest changes.
use nestjs_amqp.Prelude.{
  String, Bool, true, Option, none, some, List, [], ◌∷◌, ◌++◌, ◌==◌, ◌≡◌, ◌⊎◌, inl, inr, refl, ◌∙◌,
  subst, arith, eq_iff, All, All-append, In, find, Bool-cases, Option-cases, ◌||◌,
}
use nestjs_amqp.Prelude.Result.{Result, ok, err}
use nestjs_amqp.JsMap.{JsMap}
use nestjs_amqp.Admin.Manifest.{Route}
use nestjs_amqp.Admin.Diff.{
  StoredHttpPath, Upsert, Disable, Collision, RouteDiff, diff_routes, existing_by_key,
}
use nestjs_amqp.Admin.Diff.Laws.{IsAllowed, diff_routes-IsAllowed}
use nestjs_amqp.Admin.Diff.Rows.{IsOfRow, diff_routes-IsOfRow}
use nestjs_amqp.Admin.Sync.{
  SyncRepository, Effect, inserts, updates, disables, journals, reloads, owner_of, is_own, id_of,
  Run, ◌then_do◌, written, only, logging, reconcile, overwrite, after_write, to_row, apply_upsert,
  apply_upserts, apply_disables, collision_entries, entries, invalid_entries, ending, apply_diff,
  with_reserved, with_existing, handle_manifest,
}

find-own :
    (p : StoredHttpPath → Bool) (rows : List StoredHttpPath) (c : StoredHttpPath)
    → find p rows ≡ some c
    → In c rows × (p c ≡ true)
find-own p [] c h = absurd (cc)
find-own p (x ∷ rows) c h = elim (Bool-cases (p x)) [
  | inl e ↦ let q : x ≡ c = ground (arith, e, h) in (inl q, subst (λ z. p z ≡ true) q e)
  | inr e ↦ let (i, q) = find-own p rows c (ground (arith, e, h)) in (inr i, q)
]

All-In :
    (P : StoredHttpPath → Type 0) (rows : List StoredHttpPath)
    → ((c : StoredHttpPath) → In c rows → P c)
    → All P rows
All-In P [] h = tt
All-In P (x ∷ rows) h = (h x (inl refl), All-In P rows (λ c i. h c (inr i)))

id_of-some :
    (o : Option StoredHttpPath) (id : String)
    → id_of o ≡ some id
    → (c : StoredHttpPath) × (o ≡ some c) × (c.id ≡ some id)
id_of-some none id h = absurd (cc)
id_of-some (some c) id h = elim (Option-cases c.id) [
  | inl e ↦ absurd (ground (arith, e, h))
  | inr (i, e) ↦ (c, refl, e ∙ ground (arith, e, h))
]

module _ (quote : String → String) (upper : String → String) (r : SyncRepository)
    (service : String) where
  open r use {Db}

  -- A row of the service that the repository has replied, by owner or by key.
  abbrev pub IsOwnRow : StoredHttpPath → Type 0
  IsOwnRow row =
      (owner_of row ≡ service)
      × (db : Db) × (rows : List StoredHttpPath) × ((r.find_by_owner db service ≡ ok rows)
          ⊎ ((key : String) × (r.find_by_route_key db key ≡ ok rows)))
      × In row rows

  -- The effect writes a row of the service: a new one, or one that is its own.
  abbrev pub IsOwnEffect : Effect → Type 0
  IsOwnEffect (inserts model) = model.owner ≡ some service
  IsOwnEffect (updates id model) =
      (model.owner ≡ some service) × ((row : StoredHttpPath) × IsOwnRow row × (row.id ≡ some id))
  IsOwnEffect (disables id) = (row : StoredHttpPath) × IsOwnRow row × (row.id ≡ id)
  IsOwnEffect (journals event key) = Unit
  IsOwnEffect reloads = Unit

  abbrev AllOwn : Run quote upper r → Type 0
  AllOwn run = All IsOwnEffect run.effects

  then_do-AllOwn :
      (run : Run quote upper r) (f : Db → Run quote upper r)
      → AllOwn run
      → ((db : Db) → AllOwn (f db))
      → AllOwn (◌then_do◌ quote upper r run f)
  then_do-AllOwn run f h k = go run.result refl
    where
      go : (x : Result (Unit {0})) → run.result ≡ x → AllOwn (◌then_do◌ quote upper r run f)
      go (err e) q = rw q h
      go (ok u) q = rw q (All-append IsOwnEffect run.effects (f run.db).effects h (k run.db))

  -- The upsert is as a diff of the service gives it.
  abbrev IsOwnUpsert : Upsert → Type 0
  IsOwnUpsert u = (u.model.owner ≡ some service) × IsOfRow IsOwnRow u

  written-AllOwn :
      (x : Result (Unit {0}) × Db) (effect : Effect)
      → IsOwnEffect effect
      → AllOwn (written quote upper r x effect)
  written-AllOwn (result, db) effect h = (h, tt)

  overwrite-AllOwn :
      (u : Upsert) (o : Option String) (db : Db)
      → ((id : String) → o ≡ some id → IsOwnEffect (updates id u.model))
      → AllOwn (overwrite quote upper r u o db)
  overwrite-AllOwn u none db h = (tt, tt)
  overwrite-AllOwn u (some id) db h =
      then_do-AllOwn (written quote upper r (r.update_by_id db id u.model) (updates id u.model))
        (only quote upper r (journals "updated" u.route_key))
        (written-AllOwn (r.update_by_id db id u.model) (updates id u.model) (h id refl))
        (λ db'. (tt, tt))

  own-found :
      (db : Db) (key : String) (clashes : List StoredHttpPath) (id : String)
      → r.find_by_route_key db key ≡ ok clashes
      → id_of (find (is_own service) clashes) ≡ some id
      → (row : StoredHttpPath) × IsOwnRow row × (row.id ≡ some id)
  own-found db key clashes id q h =
      let (c, f, e) = id_of-some (find (is_own service) clashes) id h in
      let (i, own) = find-own (is_own service) clashes c f in
      (c, ((eq_iff (owner_of c) service).0 own, db, clashes, inr (key, q), i), e)

  reconcile-AllOwn :
      (u : Upsert) (x : Result (List StoredHttpPath)) (db : Db)
      → u.model.owner ≡ some service
      → r.find_by_route_key db u.route_key ≡ x
      → AllOwn (reconcile quote upper r service u x db)
  reconcile-AllOwn u (err e) db o q = tt
  reconcile-AllOwn u (ok clashes) db o q =
      overwrite-AllOwn u (id_of (find (is_own service) clashes)) db
        (λ id h. (o, own-found db u.route_key clashes id q h))

  after_write-AllOwn :
      (u : Upsert) (x : Result (Unit {0}) × Db) (effect : Effect)
      → u.model.owner ≡ some service
      → IsOwnEffect effect
      → AllOwn (after_write quote upper r service u x effect)
  after_write-AllOwn u (ok done, db) effect o h = (h, (tt, tt))
  after_write-AllOwn u (err e, db) effect o h = elim (Bool-cases (e.name == "ConflictError")) [
    | inl c ↦ rw c (h, reconcile-AllOwn u _ db o refl)
    | inr c ↦ rw c (h, tt)
  ]

  to_row-AllOwn :
      (u : Upsert) (o : Option String) (db : Db)
      → u.model.owner ≡ some service
      → (o ≡ none) ⊎ ((row : StoredHttpPath) × IsOwnRow row × (row.id ≡ o))
      → AllOwn (to_row quote upper r service u o db)
  to_row-AllOwn u none db m h = after_write-AllOwn u (r.insert db u.model) (inserts u.model) m m
  to_row-AllOwn u (some id) db m (inl q) = absurd (cc)
  to_row-AllOwn u (some id) db m (inr row) = elim (Bool-cases (id == "")) [
    | inl e ↦ rw e (after_write-AllOwn u (r.insert db u.model) (inserts u.model) m m)
    | inr e ↦
        rw e (after_write-AllOwn u (r.update_by_id db id u.model) (updates id u.model) m (m, row))
  ]

  apply_upserts-AllOwn :
      (us : List Upsert) (db : Db)
      → All IsOwnUpsert us
      → AllOwn (apply_upserts quote upper r service us db)
  unfolding apply_upserts apply_upsert
  apply_upserts-AllOwn [] db h = tt
  apply_upserts-AllOwn (u ∷ us) db ((m, row), h) =
      then_do-AllOwn (to_row quote upper r service u u.existing_id db)
        (apply_upserts quote upper r service us) (to_row-AllOwn u u.existing_id db m row)
        (λ db'. apply_upserts-AllOwn us db' h)

  abbrev IsOwnDisable : Disable → Type 0
  IsOwnDisable d = (row : StoredHttpPath) × IsOwnRow row × (row.id ≡ d.id)

  apply_disables-AllOwn :
      (ds : List Disable) (db : Db)
      → All IsOwnDisable ds
      → AllOwn (apply_disables quote upper r ds db)
  unfolding apply_disables
  apply_disables-AllOwn [] db h = tt
  apply_disables-AllOwn (d ∷ ds) db (row, h) =
      then_do-AllOwn _ (apply_disables quote upper r ds)
        (then_do-AllOwn (written quote upper r (r.disable_by_id db d.id) (disables d.id))
          (only quote upper r (journals "removed" d.route_key))
          (written-AllOwn (r.disable_by_id db d.id) (disables d.id) row) (λ db'. (tt, tt)))
        (λ db'. apply_disables-AllOwn ds db' h)

  All-collisions : (cs : List Collision) → All IsOwnEffect (collision_entries quote upper r cs)
  All-collisions [] = tt
  All-collisions (c ∷ cs) =
      elim (Bool-cases (c.conflict_with == "yaml" || c.conflict_with == "manual")) [
        | inl e ↦ rw e (All-collisions cs)
        | inr e ↦ rw e (tt, All-collisions cs)
      ]

  All-invalid : (xs : List Route) → All IsOwnEffect (invalid_entries quote upper r xs)
  All-invalid [] = tt
  All-invalid (x ∷ xs) = (tt, All-invalid xs)

  All-entries :
      (event : String) (ks : List String) → All IsOwnEffect (entries quote upper r event ks)
  All-entries event [] = tt
  All-entries event (k ∷ ks) = (tt, All-entries event ks)

  ending-AllOwn : (d : RouteDiff) (db : Db) → AllOwn (ending quote upper r d db)
  ending-AllOwn d db = elim (Bool-cases d.changed) [ inl e ↦ rw e (tt, (tt, tt)) | inr e ↦ rw e tt ]

  apply_diff-AllOwn :
      (d : RouteDiff) (db : Db)
      → All IsOwnUpsert d.upserts
      → All IsOwnDisable d.disables
      → AllOwn (apply_diff quote upper r service d db)
  unfolding apply_diff
  apply_diff-AllOwn d db u x =
      let log =
        logging quote upper r
          (collision_entries quote upper r d.collisions ++ invalid_entries quote upper r d.invalid)
          db in
      let up = ◌then_do◌ quote upper r log (apply_upserts quote upper r service d.upserts) in
      let off = ◌then_do◌ quote upper r up (apply_disables quote upper r d.disables) in
      let skip =
        ◌then_do◌ quote upper r off
          (logging quote upper r (entries quote upper r "skipped" d.skipped)) in
      let a =
        then_do-AllOwn log (apply_upserts quote upper r service d.upserts)
          (All-append IsOwnEffect (collision_entries quote upper r d.collisions)
            (invalid_entries quote upper r d.invalid) (All-collisions d.collisions)
            (All-invalid d.invalid))
          (λ db'. apply_upserts-AllOwn d.upserts db' u) in
      let b =
        then_do-AllOwn up (apply_disables quote upper r d.disables) a
          (λ db'. apply_disables-AllOwn d.disables db' x) in
      let c =
        then_do-AllOwn off (logging quote upper r (entries quote upper r "skipped" d.skipped)) b
          (λ db'. All-entries "skipped" d.skipped) in
      then_do-AllOwn skip (ending quote upper r d) c (λ db'. ending-AllOwn d db')

  All-IsOwnUpsert :
      (reserved : JsMap String) (by_key : JsMap StoredHttpPath) (us : List Upsert)
      → All (IsAllowed quote upper service reserved by_key) us
      → All (IsOfRow IsOwnRow) us
      → All IsOwnUpsert us
  All-IsOwnUpsert reserved by_key [] h k = tt
  All-IsOwnUpsert reserved by_key (u ∷ us) ((f, l, o), h) (row, k) =
      ((o, row), All-IsOwnUpsert reserved by_key us h k)

  with_reserved-AllOwn :
      (routes : List Route) (existing : List StoredHttpPath) (x : Result (JsMap String)) (db : Db)
      → All IsOwnRow existing
      → AllOwn (with_reserved quote upper r service routes existing x db)
  with_reserved-AllOwn routes existing (err e) db h = tt
  with_reserved-AllOwn routes existing (ok reserved) db h =
      let d = diff_routes quote upper service reserved routes existing in
      let (u, x) = diff_routes-IsOfRow IsOwnRow quote upper service reserved routes existing h in
      apply_diff-AllOwn d db
        (All-IsOwnUpsert reserved (existing_by_key existing []) d.upserts
          (diff_routes-IsAllowed quote upper service reserved routes existing) u)
        x

  with_existing-AllOwn :
      (yaml routes : List Route) (x : Result (List StoredHttpPath)) (db : Db)
      → ((rows : List StoredHttpPath) → x ≡ ok rows → All IsOwnRow rows)
      → AllOwn (with_existing quote upper r yaml service routes x db)
  with_existing-AllOwn yaml routes (err e) db h = tt
  with_existing-AllOwn yaml routes (ok existing) db h =
      with_reserved-AllOwn routes existing _ db (h existing refl)

  -- Over a repository that finds by owner only rows of that owner, whatever else it replies and
  -- whichever calls it refuses, a manifest of a service writes only rows of the service: it inserts
  -- rows that the service owns, and updates and disables only rows that the repository has shown as
  -- the service's own, also where another writer wins the race for a key.
  pub handle_manifest-IsOwnEffect :
      (yaml routes : List Route) (db : Db)
      → ((rows : List StoredHttpPath)
          → r.find_by_owner db service ≡ ok rows
          → All (λ (row : StoredHttpPath). row.owner ≡ some service) rows)
      → All IsOwnEffect (handle_manifest quote upper r yaml service routes db).effects
  unfolding handle_manifest
  handle_manifest-IsOwnEffect yaml routes db h = elim (Bool-cases (service == "")) [
    | inl e ↦ rw e tt
    | inr e ↦ rw e (
        with_existing-AllOwn yaml routes (r.find_by_owner db service) db (λ rows q.
          All-In IsOwnRow rows (λ c i. (owned c (at_row rows c (h rows q) i), db, rows, inl q, i))))
  ]
    where
      at_row :
          (rows : List StoredHttpPath) (c : StoredHttpPath)
          → All (λ (row : StoredHttpPath). row.owner ≡ some service) rows
          → In c rows
          → c.owner ≡ some service
      at_row [] c a i = elim i [ ]
      at_row (x ∷ rows) c (o, a) (inl q) =
          subst (λ (row : StoredHttpPath). row.owner ≡ some service) q o
      at_row (x ∷ rows) c (o, a) (inr i) = at_row rows c a i

      owned : (c : StoredHttpPath) → c.owner ≡ some service → owner_of c ≡ service
      owned c o = ground (arith, o)
