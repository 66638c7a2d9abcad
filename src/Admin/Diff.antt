-- ===== src/Admin/Diff.antt =====
-- modules/gateway-admin/util/route-diff.ts: what a manifest changes in the stored routes of its
-- service. The pushes on the arrays of the result are in the order of the loop.
pub mod Laws
pub mod Rows
use nestjs_amqp.Prelude.{
  String, Bool, true, false, ◌&&◌, ◌||◌, not, Option, none, some, List, [], ◌∷◌, ◌++◌, ◌==◌,
  if◌then◌else◌, map, select, includes, is_empty,
}
use nestjs_amqp.JsMap.{JsMap, get, set}
use nestjs_amqp.Admin.Manifest.{
  Route, RouteFieldChange, is_valid_route, apply_user_overrides, route_key_of, route_content,
  diff_route_fields,
}

-- a stored route: its columns beside the content
pub record StoredHttpPath : Type 0 where
  pub id : Option String
  pub enabled : Option Bool
  pub owner : Option String
  pub route_key : Option String
  pub source : Option String
  pub modified : Option Bool
  pub user_overrides : Option (List String)
  pub content : Route

pub record Upsert : Type 0 where
  pub route_key : String
  pub existing_id : Option String
  pub added : Bool
  pub model : StoredHttpPath
  pub changes : Option (List RouteFieldChange)

pub record Disable : Type 0 where
  pub id : Option String
  pub route_key : String

pub record Collision : Type 0 where
  pub route_key : String
  pub conflict_with : String

pub record RouteDiff : Type 0 where
  pub upserts : List Upsert
  pub disables : List Disable
  pub collisions : List Collision
  pub skipped : List String
  pub invalid : List Route
  pub changed : Bool

abbrev pub no_diff : RouteDiff
no_diff = record {
  upserts = [];
  disables = [];
  collisions = [];
  skipped = [];
  invalid = [];
  changed = false;
}

-- what one round of the loop comes to
pub data Outcome : Type 0 where
  collides : String → Outcome
  locked : Outcome
  unchanged : Outcome
  upserted : Upsert → Outcome

-- `enabled !== false`
abbrev pub is_enabled : StoredHttpPath → Bool
is_enabled e = elim e.enabled [ none ↦ true | some b ↦ b ]

abbrev pub is_modified : StoredHttpPath → Bool
is_modified e = elim e.modified [ none ↦ false | some b ↦ b ]

abbrev pub overrides_of : Option (List String) → List String
overrides_of none = []
overrides_of (some fs) = fs

abbrev keyed : Option String → StoredHttpPath → JsMap StoredHttpPath → JsMap StoredHttpPath
keyed none e m = m
keyed (some k) e m = if k == "" then m else set m k e

-- the rows by their key; of two rows with a key the later one counts
unfoldable pub existing_by_key : List StoredHttpPath → JsMap StoredHttpPath → JsMap StoredHttpPath
existing_by_key [] m = m
existing_by_key (e ∷ es) m = existing_by_key es (keyed e.route_key e m)

module _ (quote : String → String) (upper : String → String) (service : String)
    (reserved : JsMap String) where
  abbrev foreign : Option String → Option String
  foreign none = none
  foreign (some owner) = if owner == "" then none else if owner == service then none else some owner

  abbrev model_of : String → Route → Bool → List String → StoredHttpPath
  model_of key merged enabled overrides = record {
    id = none;
    enabled = some enabled;
    owner = some service;
    route_key = some key;
    source = some "microservice";
    modified = some false;
    user_overrides = some overrides;
    content = merged;
  }

  -- a route that has no row, and one that has
  unfoldable pub against : String → Route → Option StoredHttpPath → Outcome
  against key r none = upserted (record {
    route_key = key;
    existing_id = none;
    added = true;
    model = model_of key (apply_user_overrides r none []) true [];
    changes = none;
  })
  against key r (some ex) =
      let overrides = overrides_of ex.user_overrides in
      let merged = apply_user_overrides r (some ex.content) overrides in
      let enabled = if includes overrides "enabled" then is_enabled ex else true in
      let same_state = (enabled && is_enabled ex) || (not enabled && not (is_enabled ex)) in
      if is_modified ex
      then locked
      else if same_state
          && (route_content quote upper merged == route_content quote upper ex.content)
      then unchanged
      else upserted (record {
        route_key = key;
        existing_id = ex.id;
        added = false;
        model = model_of key merged enabled overrides;
        changes = some (diff_route_fields quote upper ex.content merged);
      })

  abbrev unless_foreign : Option String → Outcome → Outcome
  unless_foreign none o = o
  unless_foreign (some owner) o = collides owner

  unfoldable pub outcome : JsMap StoredHttpPath → String → Route → Outcome
  outcome by_key key r =
      unless_foreign (foreign (get reserved key)) (against key r (get by_key key))

  abbrev record_outcome : String → Outcome → RouteDiff → RouteDiff
  record_outcome key (collides owner) d = record d {
    collisions = record { route_key = key; conflict_with = owner } ∷ d.collisions;
  }
  record_outcome key locked d = record d { skipped = key ∷ d.skipped }
  record_outcome key unchanged d = d
  record_outcome key (upserted u) d = record d { upserts = u ∷ d.upserts }

  -- the loop over the manifest: what it pushes, and the keys it has seen
  unfoldable pub diff_incoming :
      JsMap StoredHttpPath → List String → List Route → RouteDiff × List String
  unfolding outcome
  diff_incoming by_key seen [] = (no_diff, seen)
  diff_incoming by_key seen (r ∷ rs) =
      let key = route_key_of quote upper r in
      let skipping = diff_incoming by_key seen rs in
      let going_on = diff_incoming by_key (key ∷ seen) rs in
      if not (is_valid_route r)
      then (record skipping.0 { invalid = r ∷ skipping.0.invalid }, skipping.1)
      else if includes seen key
      then skipping
      else (record_outcome key (outcome by_key key r) going_on.0, going_on.1)

  -- the rows that the manifest no longer names
  unfoldable pub disables_of : List String → JsMap StoredHttpPath → List Disable
  disables_of seen [] = []
  disables_of seen ((key, ex) ∷ m) =
      let rest = disables_of seen m in
      if not (includes seen key) && is_enabled ex
      then record { id = ex.id; route_key = key } ∷ rest
      else rest

  unfoldable pub diff_routes : List Route → List StoredHttpPath → RouteDiff
  unfolding diff_incoming
  diff_routes incoming existing =
      let by_key = existing_by_key existing [] in
      let (d, seen) = diff_incoming by_key [] incoming in
      let gone = disables_of seen by_key in
      record d { disables = gone; changed = not (is_empty d.upserts) || not (is_empty gone) }
