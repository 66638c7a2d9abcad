-- ===== src/Admin/Sync.antt =====
-- modules/gateway-admin/services/route-sync.service.ts: a manifest is applied to the stored routes.
-- The repository is the application's: a parameter. The journal is written on a best effort, and what
-- is kept of an entry is its event and its key; the reload is a message that may get lost.
pub mod Owners
use nestjs_amqp.Prelude.{
  String, Bool, true, false, not, Option, none, some, List, [], ◌∷◌, ◌++◌, ◌==◌, ◌||◌,
  if◌then◌else◌, find, is_empty,
}
use nestjs_amqp.Prelude.Result.{AppError, Result, ok, err}
use nestjs_amqp.JsMap.{JsMap, get, has, set}
use nestjs_amqp.Admin.Manifest.{Route, route_key_of}
use nestjs_amqp.Admin.Diff.{StoredHttpPath, Upsert, Disable, Collision, RouteDiff, diff_routes}

pub record SyncRepository : Type 1 where
  pub Db : Type 0
  pub find_by_owner : Db → String → Result (List StoredHttpPath)
  pub find_by_route_key : Db → String → Result (List StoredHttpPath)
  pub insert : Db → StoredHttpPath → Result (Unit {0}) × Db
  pub update_by_id : Db → String → StoredHttpPath → Result (Unit {0}) × Db
  pub disable_by_id : Db → Option String → Result (Unit {0}) × Db

-- what the service asks the repository to write, and the reload
pub data Effect : Type 0 where
  inserts : StoredHttpPath → Effect
  updates : String → StoredHttpPath → Effect
  disables : Option String → Effect
  journals : (event : String) → (route_key : String) → Effect
  reloads : Effect

-- `c.owner ?? 'manual'`
abbrev pub owner_of : StoredHttpPath → String
owner_of c = elim c.owner [ none ↦ "manual" | some owner ↦ owner ]

abbrev is_own : String → StoredHttpPath → Bool
is_own service c = owner_of c == service

abbrev is_other : String → StoredHttpPath → Bool
is_other service c = not (owner_of c == service)

-- `mine?._id`
abbrev id_of : Option StoredHttpPath → Option String
id_of none = none
id_of (some c) = elim c.id [ none ↦ none | some id ↦ if id == "" then none else some id ]

module _ (quote : String → String) (upper : String → String) (r : SyncRepository) where
  open r use {Db}

  -- the state of a run: its result so far, the database, and the effects in order
  pub record Run : Type 0 where
    pub result : Result (Unit {0})
    pub db : Db
    pub effects : List Effect

  abbrev yaml_keys : List Route → JsMap String → JsMap String
  yaml_keys [] m = m
  yaml_keys (p ∷ ps) m = yaml_keys ps (set m (route_key_of quote upper p) "yaml")

  abbrev reserve_other : String → Option StoredHttpPath → JsMap String → JsMap String
  reserve_other key none m = m
  reserve_other key (some c) m = set m key (owner_of c)

  -- the keys that YAML or another owner holds
  unfoldable pub reserved_keys : Db → String → List Route → JsMap String → Result (JsMap String)
  reserved_keys db service [] m = ok m
  reserved_keys db service (route ∷ routes) m =
      let key = route_key_of quote upper route in
      let skipped = reserved_keys db service routes m in
      if has m key then skipped else elim (r.find_by_route_key db key) [
        | err e ↦ err e
        | ok clashes ↦
            reserved_keys db service routes (reserve_other key (find (is_other service) clashes) m)
      ]

  abbrev written : Result (Unit {0}) × Db → Effect → Run
  written (result, db) effect = record { result = result; db = db; effects = effect ∷ [] }

  -- a further step, unless the run has failed
  infixl 5 ◌then_do◌
  abbrev pub ◌then_do◌ : Run → (Db → Run) → Run
  run then_do f = elim run.result [
    | err e ↦ run
    | ok u ↦ record (f run.db) { effects = run.effects ++ (f run.db).effects }
  ]

  abbrev only : Effect → Db → Run
  only effect db = record { result = ok tt; db = db; effects = effect ∷ [] }

  abbrev no_effect : Db → Run
  no_effect db = record { result = ok tt; db = db; effects = [] }

  -- the insert lost a race: the row of the same owner is updated, that of another one stays
  abbrev overwrite : Upsert → Option String → Db → Run
  overwrite u none db = only (journals "collision" u.route_key) db
  overwrite u (some id) db =
      written (r.update_by_id db id u.model) (updates id u.model)
      then_do only (journals "updated" u.route_key)

  abbrev reconcile : String → Upsert → Result (List StoredHttpPath) → Db → Run
  reconcile service u (err e) db = record { result = err e; db = db; effects = [] }
  reconcile service u (ok clashes) db = overwrite u (id_of (find (is_own service) clashes)) db

  abbrev after_write : String → Upsert → Result (Unit {0}) × Db → Effect → Run
  after_write service u (ok done, db) effect = record {
    result = ok tt;
    db = db;
    effects = effect ∷ journals (if u.added then "added" else "updated") u.route_key ∷ [];
  }
  after_write service u (err e, db) effect =
      if e.name == "ConflictError"
      then record (reconcile service u (r.find_by_route_key db u.route_key) db) {
        effects = effect ∷ (reconcile service u (r.find_by_route_key db u.route_key) db).effects;
      }
      else record { result = err e; db = db; effects = effect ∷ [] }

  abbrev to_row : String → Upsert → Option String → Db → Run
  to_row service u none db = after_write service u (r.insert db u.model) (inserts u.model)
  to_row service u (some id) db =
      if id == ""
      then after_write service u (r.insert db u.model) (inserts u.model)
      else after_write service u (r.update_by_id db id u.model) (updates id u.model)

  unfoldable pub apply_upsert : String → Upsert → Db → Run
  apply_upsert service u db = to_row service u u.existing_id db

  unfoldable pub apply_upserts : String → List Upsert → Db → Run
  apply_upserts service [] db = no_effect db
  apply_upserts service (u ∷ us) db = apply_upsert service u db then_do apply_upserts service us

  unfoldable pub apply_disables : List Disable → Db → Run
  apply_disables [] db = no_effect db
  apply_disables (d ∷ ds) db =
      written (r.disable_by_id db d.id) (disables d.id)
      then_do only (journals "removed" d.route_key)
      then_do apply_disables ds

  abbrev collision_entries : List Collision → List Effect
  collision_entries [] = []
  collision_entries (c ∷ cs) =
      let rest = collision_entries cs in
      if c.conflict_with == "yaml" || c.conflict_with == "manual"
      then rest
      else journals "collision" c.route_key ∷ rest

  abbrev entries : String → List String → List Effect
  entries event [] = []
  entries event (key ∷ keys) = journals event key ∷ entries event keys

  abbrev invalid_entries : List Route → List Effect
  invalid_entries [] = []
  invalid_entries (x ∷ xs) = journals "invalid" "" ∷ invalid_entries xs

  abbrev logging : List Effect → Db → Run
  logging effects db = record { result = ok tt; db = db; effects = effects }

  abbrev ending : RouteDiff → Db → Run
  ending d db = if d.changed then logging (reloads ∷ journals "reload" "" ∷ []) db else no_effect db

  unfoldable pub apply_diff : String → RouteDiff → Db → Run
  apply_diff service d db =
      logging (collision_entries d.collisions ++ invalid_entries d.invalid) db
      then_do apply_upserts service d.upserts
      then_do apply_disables d.disables
      then_do logging (entries "skipped" d.skipped)
      then_do ending d

  abbrev with_reserved :
      String → List Route → List StoredHttpPath → Result (JsMap String) → Db → Run
  with_reserved service routes existing (err e) db = record {
    result = err e;
    db = db;
    effects = [];
  }
  with_reserved service routes existing (ok reserved) db =
      apply_diff service (diff_routes quote upper service reserved routes existing) db

  abbrev with_existing : List Route → String → List Route → Result (List StoredHttpPath) → Db → Run
  with_existing yaml service routes (err e) db = record { result = err e; db = db; effects = [] }
  with_existing yaml service routes (ok existing) db =
      with_reserved service routes existing (reserved_keys db service routes (yaml_keys yaml [])) db

  -- a failure is logged: the message is acked all the same
  unfoldable pub handle_manifest : List Route → String → List Route → Db → Run
  handle_manifest yaml service routes db =
      if service == ""
      then no_effect db
      else with_existing yaml service routes (r.find_by_owner db service) db
