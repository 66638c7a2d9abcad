-- ===== src/Admin/Paths.antt =====
-- modules/gateway-admin/services/gateway-path.service.ts: a user creates, edits and deletes routes.
-- The repository is the application's: a parameter, whose calls may reject. The journal is written
-- on a best effort; what is kept of an entry is its event, its actor and the route.
pub mod Edits
use nestjs_amqp.Prelude.{
  String, Bool, true, false, ◌&&◌, ◌||◌, not, Option, none, some, List, [], ◌∷◌, ◌++◌, ◌==◌,
  if◌then◌else◌, map, select, includes, is_empty, dedup, find, template,
}
use nestjs_amqp.Prelude.Result.{AppError, Result, ok, err, bad_request, conflict}
use nestjs_amqp.JsMap.{JsMap, get, set}
use nestjs_amqp.Admin.Manifest.{Route, RouteFieldChange, truthy, route_key_of, diff_route_fields}
use nestjs_amqp.Admin.Diff.{StoredHttpPath, is_enabled, is_modified, overrides_of}

pub record PathRepository : Type 1 where
  pub Db : Type 0
  pub find_by_id : Db → String → Result (Option StoredHttpPath)
  pub find_by_route_key : Db → String → Result (List StoredHttpPath)
  pub insert : Db → StoredHttpPath → Result StoredHttpPath × Db
  pub update_by_id : Db → String → StoredHttpPath → Result (Option StoredHttpPath) × Db
  pub remove_by_id : Db → String → Result (Option StoredHttpPath) × Db

pub record JournalEntry : Type 0 where
  pub event : String
  pub actor : Option String
  pub route_key : Option String

-- `StoredHttpPath & { id, releaseOverrides }`
pub record UpdateBody : Type 0 where
  pub id : Option String
  pub model : StoredHttpPath
  pub release_overrides : List String

abbrev pub user_overridable_fields : List String
user_overridable_fields =
    "enabled" ∷ "actions" ∷ "allowAnonymous" ∷ "timeout" ∷ "redirect" ∷ "successStatusCode" ∷ []

abbrev pub was_modified : Option StoredHttpPath → Bool
was_modified none = false
was_modified (some e) = is_modified e

abbrev pub old_overrides : Option StoredHttpPath → List String
old_overrides none = []
old_overrides (some e) = overrides_of e.user_overrides

-- `modified` and `userOverrides` of a row after an edit of the fields `changed`
unfoldable pub classify : Option StoredHttpPath → List String → List String → Bool × List String
classify existing changed released =
    let hard = select (λ f. not (includes user_overridable_fields f)) changed in
    let soft = select (λ f. includes user_overridable_fields f) changed in
    (
      if not (is_empty hard) then true else was_modified existing,
      select (λ f. not (includes released f)) (dedup (old_overrides existing ++ soft)),
    )

-- { ...existing, ...model }
abbrev spread : Route → Route → Route
spread existing [] = existing
spread existing ((k, v) ∷ model) = spread (set existing k v) model

abbrev enabled_changed : Option Bool → StoredHttpPath → Bool
enabled_changed none existing = false
enabled_changed (some b) existing =
    (b && not (is_enabled existing)) || (not b && is_enabled existing)

module _ (quote : String → String) (upper : String → String) (repo : PathRepository) where
  open repo use {Db, find_by_id, find_by_route_key, insert, update_by_id, remove_by_id}

  pub record Paths : Type 0 where
    pub db : Db
    pub journal : List JournalEntry

  infixl 5 ◌and_then◌
  abbrev pub ◌and_then◌ :
      {A B : Type 0} → Result A × Paths → (A → Paths → Result B × Paths) → Result B × Paths
  (ok a, st) and_then f = f a st
  (err e, st) and_then f = (err e, st)

  abbrev stored : {A : Type 0} → Paths → Result A × Db → Result A × Paths
  stored st (r, db) = (r, record st { db = db })

  abbrev noted : String → Option String → Option String → Paths → Paths
  noted event actor key st = record st {
    journal = st.journal ++ record { event = event; actor = actor; route_key = key } ∷ [];
  }

  abbrev is_id : Option String → Option String → Bool
  is_id none none = true
  is_id none (some b) = false
  is_id (some a) none = false
  is_id (some a) (some b) = a == b

  -- the message leaves out the owner and the id of the other route
  abbrev clash : String → Option StoredHttpPath → Paths → Result (Unit {0}) × Paths
  clash key none st = (ok tt, st)
  clash key (some p) st =
      (err (conflict (template ("A route '" ∷ key ∷ "' already exists" ∷ []))), st)

  unfoldable pub assert_no_route_conflict :
      String → Option String → Paths → Result (Unit {0}) × Paths
  assert_no_route_conflict key exclude st =
      (find_by_route_key st.db key, st) and_then λ clashes st'.
      clash key (find (λ p. is_enabled p && not (is_id p.id exclude)) clashes) st'

  abbrev missing : Route → List String → Option String
  missing r fs = find (λ f. not (truthy (get r f))) fs

  abbrev create_valid : StoredHttpPath → Option String → Paths → Result StoredHttpPath × Paths
  create_valid model actor st =
      let key = route_key_of quote upper model.content in
      assert_no_route_conflict key none st and_then λ free st'.
      stored st' (
        insert st'.db
          (record model { route_key = some key; source = some "user"; modified = some false }))
      and_then λ created st''. (ok created, noted "created" actor (some key) st'')

  abbrev unless_missing :
      Option String → Result StoredHttpPath × Paths → Paths → Result StoredHttpPath × Paths
  unless_missing none r st = r
  unless_missing (some f) r st = (err (bad_request (template (f ∷ " is required" ∷ []))), st)

  unfoldable pub create : StoredHttpPath → Option String → Paths → Result StoredHttpPath × Paths
  unfolding assert_no_route_conflict
  create model actor st =
      unless_missing (missing model.content ("name" ∷ "method" ∷ "path" ∷ "topic" ∷ []))
        (create_valid model actor st) st

  abbrev changed_fields : Option StoredHttpPath → StoredHttpPath → List String
  changed_fields none model = []
  changed_fields (some e) model =
      map (λ (c : RouteFieldChange). c.field_name)
        (diff_route_fields quote upper e.content (spread e.content model.content))
      ++ (if enabled_changed model.enabled e then "enabled" ∷ [] else [])

  -- the check of a new identity, which also sets the key
  abbrev rekeyed : String → StoredHttpPath → Paths → Result StoredHttpPath × Paths
  rekeyed id model st =
      let key = route_key_of quote upper model.content in
      if truthy (get model.content "method") && truthy (get model.content "path")
      then (assert_no_route_conflict key (some id) st and_then λ free st'.
          (ok (record model { route_key = some key }), st'))
      else (ok model, st)

  abbrev key_of : Option StoredHttpPath → Option String
  key_of none = none
  key_of (some e) = e.route_key

  abbrev key_after : Option StoredHttpPath → Option StoredHttpPath → Option String
  key_after updated existing = elim (key_of updated) [ none ↦ key_of existing | some k ↦ some k ]

  abbrev update_known :
      String → UpdateBody → Option String → Paths → Result (Option StoredHttpPath) × Paths
  update_known id body actor st = (find_by_id st.db id, st) and_then λ existing st'.
      rekeyed id body.model st' and_then λ model st''.
      let (modified, overrides) =
        classify existing (changed_fields existing model) body.release_overrides in
      stored st'' (
        update_by_id st''.db id
          (record model { modified = some modified; user_overrides = some overrides }))
      and_then λ updated st3. (ok updated, noted "updated" actor (key_after updated existing) st3)

  abbrev with_id :
      Option String → UpdateBody → Option String → Paths → Result (Option StoredHttpPath) × Paths
  with_id none body actor st = (err (bad_request "id is required"), st)
  with_id (some id) body actor st =
      let known = update_known id body actor st in
      if id == "" then (err (bad_request "id is required"), st) else known

  unfoldable pub update :
      UpdateBody → Option String → Paths → Result (Option StoredHttpPath) × Paths
  unfolding assert_no_route_conflict
  update body actor st = with_id body.id body actor st

  unfoldable pub remove : String → Option String → Paths → Result (Option StoredHttpPath) × Paths
  remove id actor st = stored st (remove_by_id st.db id) and_then λ removed st'.
      (ok removed, noted "deleted" actor (key_after removed none) st')
