-- ===== src/Admin/Diff/Rows.antt =====
-- Which rows a diff writes.
use nestjs_amqp.Prelude.{
  String, Bool, true, false, ◌&&◌, not, Option, none, some, List, [], ◌∷◌, ◌==◌, ◌≡◌, ◌⊎◌, inl, inr,
  refl, if◌then◌else◌, All, includes, Bool-cases,
}
use nestjs_amqp.JsMap.{JsMap, get}
use nestjs_amqp.JsMap.Laws.{All-set_value, All-get_value}
use nestjs_amqp.Admin.Manifest.{Route, route_key_of, is_valid_route}
use nestjs_amqp.Admin.Diff.{
  StoredHttpPath, Upsert, Disable, RouteDiff, Outcome, collides, locked, unchanged, upserted,
  existing_by_key, keyed, diff_incoming, diff_routes, disables_of, against, outcome, unless_foreign,
  record_outcome, is_modified, is_enabled,
}

module _ (P : StoredHttpPath → Type 0) where
  All-keyed :
      (o : Option String) (e : StoredHttpPath) (m : JsMap StoredHttpPath)
      → P e
      → All (λ x. P x.1) m
      → All (λ x. P x.1) (keyed o e m)
  All-keyed none e m p k = k
  All-keyed (some key) e m p k = elim (Bool-cases (key == "")) [
    | inl b ↦ rw b k
    | inr b ↦ rw b (All-set_value P m key e k p)
  ]

  All-existing_by_key :
      (rows : List StoredHttpPath) (m : JsMap StoredHttpPath)
      → All P rows
      → All (λ e. P e.1) m
      → All (λ e. P e.1) (existing_by_key rows m)
  unfolding existing_by_key
  All-existing_by_key [] m h k = k
  All-existing_by_key (e ∷ es) m (p, h) k =
      All-existing_by_key es (keyed e.route_key e m) h (All-keyed e.route_key e m p k)

  -- The upsert is of a new row, or of one of the rows.
  abbrev pub IsOfRow : Upsert → Type 0
  IsOfRow u = (u.existing_id ≡ none) ⊎ ((row : StoredHttpPath) × P row × (row.id ≡ u.existing_id))

  abbrev OfRow : Outcome → Type 0
  OfRow (upserted u) = IsOfRow u
  OfRow (collides owner) = Unit
  OfRow locked = Unit
  OfRow unchanged = Unit

  module _ (quote : String → String) (upper : String → String) (service : String)
      (reserved : JsMap String) where
    unchanged-OfRow :
        (c : Bool) (u : Upsert) → IsOfRow u → OfRow (if c then unchanged else upserted u)
    unchanged-OfRow true u h = tt
    unchanged-OfRow false u h = h

    against-OfRow :
        (key : String) (r : Route) (ex : Option StoredHttpPath)
        → ((row : StoredHttpPath) → ex ≡ some row → P row)
        → OfRow (against quote upper service reserved key r ex)
    unfolding against
    against-OfRow key r none h = inl refl
    against-OfRow key r (some ex) h = elim (Bool-cases (is_modified ex)) [
      | inl edited ↦ rw edited tt
      | inr free ↦ rw free (unchanged-OfRow _ _ (inr (ex, h ex refl, refl)))
    ]

    recorded-OfRow :
        (key : String) (owner : Option String) (o : Outcome) (d : RouteDiff)
        → OfRow o
        → All IsOfRow d.upserts
        → All IsOfRow
            (record_outcome quote upper service reserved key
              (unless_foreign quote upper service reserved owner o)
              d).upserts
    recorded-OfRow key (some owner) o d p h = h
    recorded-OfRow key none (collides owner) d p h = h
    recorded-OfRow key none locked d p h = h
    recorded-OfRow key none unchanged d p h = h
    recorded-OfRow key none (upserted u) d p h = (p, h)

    diff_incoming-IsOfRow :
        (by_key : JsMap StoredHttpPath) (seen : List String) (rs : List Route)
        → All (λ e. P e.1) by_key
        → All IsOfRow (diff_incoming quote upper service reserved by_key seen rs).0.upserts
    unfolding diff_incoming outcome
    diff_incoming-IsOfRow by_key seen [] a = tt
    diff_incoming-IsOfRow by_key seen (r ∷ rs) a = elim (Bool-cases (is_valid_route r)) [
      | inr malformed ↦ rw malformed (diff_incoming-IsOfRow by_key seen rs a)
      | inl valid ↦ elim (Bool-cases (includes seen (route_key_of quote upper r))) [
        | inl again ↦ rw (valid, again) (diff_incoming-IsOfRow by_key seen rs a)
        | inr first ↦
            rw (valid, first)
              (recorded-OfRow (route_key_of quote upper r) _ _ _
                (against-OfRow (route_key_of quote upper r) r
                  (get by_key (route_key_of quote upper r))
                  (λ row q. All-get_value P by_key (route_key_of quote upper r) row a q))
                (diff_incoming-IsOfRow by_key (route_key_of quote upper r ∷ seen) rs a))
      ]
    ]

    -- The disabled row is one of the rows.
    abbrev pub IsDisabled : Disable → Type 0
    IsDisabled d = (row : StoredHttpPath) × P row × (row.id ≡ d.id)

    disables_of-IsDisabled :
        (seen : List String) (m : JsMap StoredHttpPath)
        → All (λ e. P e.1) m
        → All IsDisabled (disables_of quote upper service reserved seen m)
    unfolding disables_of
    disables_of-IsDisabled seen [] h = tt
    disables_of-IsDisabled seen ((k, ex) ∷ m) (p, h) =
        elim (Bool-cases (not (includes seen k) && is_enabled ex)) [
          | inl gone ↦ rw gone ((ex, p, refl), disables_of-IsDisabled seen m h)
          | inr stays ↦ rw stays (disables_of-IsDisabled seen m h)
        ]

    pub diff_routes-IsOfRow :
        (incoming : List Route) (existing : List StoredHttpPath)
        → All P existing
        → All IsOfRow (diff_routes quote upper service reserved incoming existing).upserts
          × All IsDisabled (diff_routes quote upper service reserved incoming existing).disables
    unfolding diff_routes
    diff_routes-IsOfRow incoming existing h =
        let by_key = existing_by_key existing [] in
        let a = All-existing_by_key existing [] h tt in
        (
          diff_incoming-IsOfRow by_key [] incoming a,
          disables_of-IsDisabled (diff_incoming quote upper service reserved by_key [] incoming).1
              by_key a,
        )
