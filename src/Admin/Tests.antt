-- ===== src/Admin/Tests.antt =====
-- The theorems on route diffs and edits at concrete inputs.
use nestjs_amqp.Prelude.{
  ℕ, String, true, false, none, some, List, [], ◌∷◌, All, In, inl, ◌≡◌, ◌⊎◌, ◌↔◌, refl, includes,
}
use nestjs_amqp.Prelude.Result.{ok, err}
use nestjs_amqp.Admin.Manifest.{Route, text, is_valid_route, route_key_of}
use nestjs_amqp.Admin.Diff.{StoredHttpPath, Disable, existing_by_key, diff_routes, disables_of}
use nestjs_amqp.Admin.Diff.Laws.{
  IsAllowed, IsDistinct, diff_routes-IsAllowed, diff_routes-IsDistinct,
}
use nestjs_amqp.Admin.Paths.{classify, was_modified, old_overrides, user_overridable_fields}
use nestjs_amqp.Admin.Paths.Edits.{IsHard, classify_iff}
use nestjs_amqp.Admin.Metrics.{Point, Group, aggregate_rollups, or_zero}
use nestjs_amqp.Admin.Metrics.Totals.{between, at_least, sum, IsTally, aggregate_rollups-totals}
use nestjs_amqp.Prelude.{length}
use nestjs_amqp.Prelude.{subst}
use nestjs_amqp.Admin.Sync.{SyncRepository, handle_manifest}
use nestjs_amqp.Admin.Sync.Owners.{IsOwnEffect, handle_manifest-IsOwnEffect}

abbrev same_text : String → String
same_text s = s

abbrev route_at : String → Route
route_at path =
    ("method", text "GET")
    ∷ ("path", text path)
    ∷ ("topic", text "orders")
    ∷ ("action", text "list")
    ∷ ("mode", text "rpc")
    ∷ []

abbrev row_at : String → StoredHttpPath
row_at key = record {
  id = some "1";
  enabled = none;
  owner = some "orders";
  route_key = some key;
  source = some "microservice";
  modified = none;
  user_overrides = none;
  content = [];
}

abbrev manifest : List Route
manifest = route_at "/new" ∷ route_at "/new" ∷ []

abbrev rows : List StoredHttpPath
rows = row_at "GET /old" ∷ []

diff_routes-IsAllowed_example :
    All
      (IsAllowed same_text same_text "orders" [] (existing_by_key rows []))
      (diff_routes same_text same_text "orders" [] manifest rows).upserts
diff_routes-IsAllowed_example = diff_routes-IsAllowed same_text same_text "orders" [] manifest rows

diff_routes-IsDistinct_example :
    IsDistinct same_text same_text "orders" []
      (diff_routes same_text same_text "orders" [] manifest rows).upserts
diff_routes-IsDistinct_example =
    diff_routes-IsDistinct same_text same_text "orders" [] manifest rows

abbrev old_row : Disable
old_row = record { id = some "1"; route_key = "GET /old" }

old_disabled : In old_row (diff_routes same_text same_text "orders" [] manifest rows).disables
unfolding diff_routes disables_of existing_by_key is_valid_route route_key_of
old_disabled = inl refl

new_valid : is_valid_route (route_at "/new") ≡ true
unfolding is_valid_route
new_valid = refl

classify_iff_example :
    (((classify (some (row_at "GET /old")) ("timeout" ∷ "path" ∷ []) []).0 ≡ true)
      ↔ (IsHard ("timeout" ∷ "path" ∷ []) ⊎ (was_modified (some (row_at "GET /old")) ≡ true)))
    × (In {A = String} "timeout"
          (classify (some (row_at "GET /old")) ("timeout" ∷ "path" ∷ []) []).1
        ↔ ((In {A = String} "timeout" (old_overrides (some (row_at "GET /old")))
              ⊎ (In {A = String} "timeout" ("timeout" ∷ "path" ∷ [])
                  × (includes user_overridable_fields "timeout" ≡ true)))
            × (includes [] "timeout" ≡ false)))
classify_iff_example =
    classify_iff (some (row_at "GET /old")) ("timeout" ∷ "path" ∷ []) [] "timeout"

abbrev point_at : ℕ → ℕ → Point
point_at ts status = record {
  ts = ts;
  method = "GET";
  route = "/orders";
  name = none;
  status = some status;
  duration_ms = some 5;
}

abbrev points : List Point
points = point_at 10 200 ∷ point_at 3600001 404 ∷ point_at 20 500 ∷ []

aggregate_rollups-totals_example :
    (sum (λ g. g.sums.count) (aggregate_rollups points 0) ≡ length points)
    × (sum (λ g. g.sums.error_count) (aggregate_rollups points 0)
        ≡ sum (λ p. at_least 400 p.status) points)
    × (sum (λ g. g.sums.total) (aggregate_rollups points 0)
        ≡ sum (λ p. or_zero p.duration_ms) points)
    × (sum (λ g. g.sums.by_status.c2xx) (aggregate_rollups points 0)
        ≡ sum (λ p. between 200 300 p.status) points)
    × (sum (λ g. g.sums.by_status.c3xx) (aggregate_rollups points 0)
        ≡ sum (λ p. between 300 400 p.status) points)
    × (sum (λ g. g.sums.by_status.c4xx) (aggregate_rollups points 0)
        ≡ sum (λ p. between 400 500 p.status) points)
    × (sum (λ g. g.sums.by_status.c5xx) (aggregate_rollups points 0)
        ≡ sum (λ p. at_least 500 p.status) points)
    × All (λ (g : Group). IsTally g.sums) (aggregate_rollups points 0)
aggregate_rollups-totals_example = aggregate_rollups-totals points 0

-- a repository that refuses every insert, since the key is taken
abbrev store : SyncRepository
store = record {
  Db = List StoredHttpPath;
  find_by_owner = λ db owner. ok db;
  find_by_route_key = λ db key. ok db;
  insert = λ db row. (err (record { name = "ConflictError"; message = key_taken }), db);
  update_by_id = λ db id row. (ok tt, db);
  disable_by_id = λ db id. (ok tt, db);
}
  where
    key_taken : String
    key_taken = "routeKey"

rows_owned :
    (found : List StoredHttpPath)
    → store.find_by_owner rows "orders" ≡ ok found
    → All (λ (row : StoredHttpPath). row.owner ≡ some "orders") found
rows_owned found q =
    let e : rows ≡ found = cc in
    subst (All (λ (row : StoredHttpPath). row.owner ≡ some "orders")) e (refl, tt)

handle_manifest-IsOwnEffect_example :
    All
      (IsOwnEffect same_text same_text store "orders")
      (handle_manifest same_text same_text store [] "orders" manifest rows).effects
handle_manifest-IsOwnEffect_example =
    handle_manifest-IsOwnEffect same_text same_text store "orders" [] manifest rows rows_owned
