-- ===== src/Admin/Diff/Laws.antt =====
-- Which routes a diff touches.
use nestjs_amqp.Prelude.{
  String, Bool, true, false, ◌&&◌, not, Option, none, some, List, [], ◌∷◌, if◌then◌else◌, includes,
  All, In, ◌≡◌, ◌≢◌, ◌⊎◌, inl, inr, refl, sym, ap, ◌∙◌, arith, eq_iff, eq_refl, Bool-cases, subst,
}
use nestjs_amqp.JsMap.{JsMap, get}
use nestjs_amqp.Admin.Manifest.{Route, is_valid_route, route_key_of}
use nestjs_amqp.Admin.Diff.{
  StoredHttpPath, Upsert, Disable, RouteDiff, Outcome, collides, locked, unchanged, upserted,
  is_enabled, is_modified, existing_by_key, foreign, against, outcome, record_outcome,
  diff_incoming, disables_of, diff_routes, unless_foreign,
}

module _ (quote : String → String) (upper : String → String) (service : String)
    (reserved : JsMap String) where
  -- the row is not locked by a user's edit
  abbrev pub IsUnlocked : Option StoredHttpPath → Type 0
  IsUnlocked none = Unit
  IsUnlocked (some ex) = is_modified ex ≡ false

  -- The upsert is of a route that no other owner has reserved and no user has locked.
  abbrev pub IsAllowed : JsMap StoredHttpPath → Upsert → Type 0
  IsAllowed by_key u =
      (foreign quote upper service reserved (get reserved u.route_key) ≡ none)
      × IsUnlocked (get by_key u.route_key)
      × (u.model.owner ≡ some service)

  -- an outcome that upserts does so for this key, and not over a locked row
  abbrev IsFor : String → Option StoredHttpPath → Outcome → Type 0
  IsFor key ex (upserted u) = (u.route_key ≡ key) × IsUnlocked ex × (u.model.owner ≡ some service)
  IsFor key ex (collides owner) = Unit
  IsFor key ex locked = Unit
  IsFor key ex unchanged = Unit

  unchanged_or :
      (ex : Option StoredHttpPath) (key : String) (c : Bool) (u : Upsert)
      → IsFor key ex (upserted u)
      → IsFor key ex (if c then unchanged else upserted u)
  unchanged_or ex key true u h = tt
  unchanged_or ex key false u h = h

  against-IsFor :
      (key : String) (r : Route) (ex : Option StoredHttpPath)
      → IsFor key ex (against quote upper service reserved key r ex)
  unfolding against
  against-IsFor key r none = (refl, tt, refl)
  against-IsFor key r (some ex) = elim (Bool-cases (is_modified ex)) [
    | inl edited ↦ rw edited tt
    | inr open_row ↦ rw open_row (unchanged_or (some ex) key _ _ (refl, open_row, refl))
  ]

  -- what the outcome of a round adds
  IsFresh : JsMap StoredHttpPath → List String → Upsert → Type 0
  IsFresh by_key seen u = IsAllowed by_key u × (includes seen u.route_key ≡ false)

  unless_foreign-IsFor :
      (by_key : JsMap StoredHttpPath) (seen : List String) (key : String) (owner : Option String)
      (o : Outcome) (d : RouteDiff)
      → foreign quote upper service reserved (get reserved key) ≡ owner
      → includes seen key ≡ false
      → IsFor key (get by_key key) o
      → All (IsFresh by_key seen) d.upserts
      → All
          (IsFresh by_key seen)
          (record_outcome quote upper service reserved key
            (unless_foreign quote upper service reserved owner o)
            d).upserts
  unfolding IsFresh
  unless_foreign-IsFor by_key seen key (some owner) o d e n f h = h
  unless_foreign-IsFor by_key seen key none (collides owner) d e n f h = h
  unless_foreign-IsFor by_key seen key none locked d e n f h = h
  unless_foreign-IsFor by_key seen key none unchanged d e n f h = h
  unless_foreign-IsFor by_key seen key none (upserted u) d e n (same, unlocked, owned) h = (
    (
      (
        ap (λ k. foreign quote upper service reserved (get reserved k)) same ∙ e,
        subst (λ k. IsUnlocked (get by_key k)) (sym same) unlocked,
        owned,
      ),
      ap (includes seen) same ∙ n,
    ),
    h,
  )

  IsFresh-weaken :
      (by_key : JsMap StoredHttpPath) (seen : List String) (key : String) (us : List Upsert)
      → All (IsFresh by_key (key ∷ seen)) us
      → All (IsFresh by_key seen) us
  unfolding IsFresh
  IsFresh-weaken by_key seen key [] h = tt
  IsFresh-weaken by_key seen key (u ∷ us) ((allowed, n), h) =
      ((allowed, ground (arith, n)), IsFresh-weaken by_key seen key us h)

  diff_incoming-IsFresh :
      (by_key : JsMap StoredHttpPath) (seen : List String) (rs : List Route)
      → All
          (IsFresh by_key seen)
          (diff_incoming quote upper service reserved by_key seen rs).0.upserts
  unfolding diff_incoming outcome
  diff_incoming-IsFresh by_key seen [] = tt
  diff_incoming-IsFresh by_key seen (r ∷ rs) = elim (Bool-cases (is_valid_route r)) [
    | inr malformed ↦ rw malformed (diff_incoming-IsFresh by_key seen rs)
    | inl valid ↦ elim (Bool-cases (includes seen (route_key_of quote upper r))) [
      | inl again ↦ rw (valid, again) (diff_incoming-IsFresh by_key seen rs)
      | inr first ↦
          rw (valid, first)
            (unless_foreign-IsFor by_key seen (route_key_of quote upper r) _ _ _ refl first
              (against-IsFor (route_key_of quote upper r) r
                (get by_key (route_key_of quote upper r)))
              (IsFresh-weaken by_key seen (route_key_of quote upper r) _
                (diff_incoming-IsFresh by_key (route_key_of quote upper r ∷ seen) rs)))
    ]
  ]

  fresh-IsAllowed :
      (by_key : JsMap StoredHttpPath) (seen : List String) (us : List Upsert)
      → All (IsFresh by_key seen) us
      → All (IsAllowed by_key) us
  unfolding IsFresh
  fresh-IsAllowed by_key seen [] h = tt
  fresh-IsAllowed by_key seen (u ∷ us) ((a, n), h) = (a, fresh-IsAllowed by_key seen us h)

  -- A diff upserts only routes that no other owner has reserved and no user has locked, each as a
  -- route of the service.
  pub diff_routes-IsAllowed :
      (incoming : List Route) (existing : List StoredHttpPath)
      → All
          (IsAllowed (existing_by_key existing []))
          (diff_routes quote upper service reserved incoming existing).upserts
  unfolding diff_routes
  diff_routes-IsAllowed incoming existing =
      let by_key = existing_by_key existing [] in
      fresh-IsAllowed by_key []
        (diff_incoming quote upper service reserved by_key [] incoming).0.upserts
        (diff_incoming-IsFresh by_key [] incoming)

  abbrev pub IsDistinct : List Upsert → Type 0
  IsDistinct [] = Unit
  IsDistinct (u ∷ us) = All (λ v. u.route_key ≢ v.route_key) us × IsDistinct us

  fresh_differs :
      (by_key : JsMap StoredHttpPath) (seen : List String) (u : Upsert) (us : List Upsert)
      → All (IsFresh by_key (u.route_key ∷ seen)) us
      → All (λ v. u.route_key ≢ v.route_key) us
  unfolding IsFresh
  fresh_differs by_key seen u [] h = tt
  fresh_differs by_key seen u (v ∷ vs) ((a, n), h) = (
    (λ e. ground (arith, n, e, eq_iff u.route_key v.route_key)),
    fresh_differs by_key seen u vs h,
  )

  recorded-IsDistinct :
      (by_key : JsMap StoredHttpPath) (seen : List String) (key : String)
      (ex : Option StoredHttpPath) (owner : Option String) (o : Outcome) (d : RouteDiff)
      → IsFor key ex o
      → All (IsFresh by_key (key ∷ seen)) d.upserts
      → IsDistinct d.upserts
      → IsDistinct
          (record_outcome quote upper service reserved key
            (unless_foreign quote upper service reserved owner o)
            d).upserts
  recorded-IsDistinct by_key seen key ex (some owner) o d f h k = k
  recorded-IsDistinct by_key seen key ex none (collides owner) d f h k = k
  recorded-IsDistinct by_key seen key ex none locked d f h k = k
  recorded-IsDistinct by_key seen key ex none unchanged d f h k = k
  recorded-IsDistinct by_key seen key ex none (upserted u) d (same, unlocked, owned) h k = (
    fresh_differs by_key seen u d.upserts
        (subst (λ j. All (IsFresh by_key (j ∷ seen)) d.upserts) (sym same) h),
    k,
  )

  diff_incoming-IsDistinct :
      (by_key : JsMap StoredHttpPath) (seen : List String) (rs : List Route)
      → IsDistinct (diff_incoming quote upper service reserved by_key seen rs).0.upserts
  unfolding diff_incoming outcome
  diff_incoming-IsDistinct by_key seen [] = tt
  diff_incoming-IsDistinct by_key seen (r ∷ rs) = elim (Bool-cases (is_valid_route r)) [
    | inr malformed ↦ rw malformed (diff_incoming-IsDistinct by_key seen rs)
    | inl valid ↦ elim (Bool-cases (includes seen (route_key_of quote upper r))) [
      | inl again ↦ rw (valid, again) (diff_incoming-IsDistinct by_key seen rs)
      | inr first ↦
          rw (valid, first)
            (recorded-IsDistinct by_key seen (route_key_of quote upper r)
              (get by_key (route_key_of quote upper r)) _ _ _
              (against-IsFor (route_key_of quote upper r) r
                (get by_key (route_key_of quote upper r)))
              (diff_incoming-IsFresh by_key (route_key_of quote upper r ∷ seen) rs)
              (diff_incoming-IsDistinct by_key (route_key_of quote upper r ∷ seen) rs))
    ]
  ]

  -- No two upserts of a diff have the same key, also where the manifest repeats a route.
  pub diff_routes-IsDistinct :
      (incoming : List Route) (existing : List StoredHttpPath)
      → IsDistinct (diff_routes quote upper service reserved incoming existing).upserts
  unfolding diff_routes
  diff_routes-IsDistinct incoming existing =
      diff_incoming-IsDistinct (existing_by_key existing []) [] incoming

  -- the keys seen only grow
  seen_grows :
      (by_key : JsMap StoredHttpPath) (seen : List String) (rs : List Route) (k : String)
      → includes seen k ≡ true
      → includes (diff_incoming quote upper service reserved by_key seen rs).1 k ≡ true
  unfolding diff_incoming
  seen_grows by_key seen [] k h = h
  seen_grows by_key seen (r ∷ rs) k h = elim (Bool-cases (is_valid_route r)) [
    | inr malformed ↦ rw malformed (seen_grows by_key seen rs k h)
    | inl valid ↦ elim (Bool-cases (includes seen (route_key_of quote upper r))) [
      | inl again ↦ rw (valid, again) (seen_grows by_key seen rs k h)
      | inr first ↦
          rw (valid, first)
            (seen_grows by_key (route_key_of quote upper r ∷ seen) rs k (ground (arith, h)))
    ]
  ]

  seen_head :
      (by_key : JsMap StoredHttpPath) (seen : List String) (rs : List Route) (r : Route)
      → is_valid_route r ≡ true
      → includes
          (diff_incoming quote upper service reserved by_key seen (r ∷ rs)).1
          (route_key_of quote upper r)
        ≡ true
  unfolding diff_incoming
  seen_head by_key seen rs r v =
      let k = route_key_of quote upper r in
      elim (Bool-cases (includes seen k)) [
        | inl again ↦ rw (v, again) (seen_grows by_key seen rs k again)
        | inr first ↦ rw (v, first) (seen_grows by_key (k ∷ seen) rs k (ground (arith, eq_refl k)))
      ]

  seen_all :
      (by_key : JsMap StoredHttpPath) (seen : List String) (rs : List Route) (r : Route)
      → In r rs
      → is_valid_route r ≡ true
      → includes
          (diff_incoming quote upper service reserved by_key seen rs).1
          (route_key_of quote upper r)
        ≡ true
  unfolding diff_incoming
  seen_all by_key seen [] r i v = elim i [ ]
  seen_all by_key seen (r' ∷ rs) r (inl e) v =
      subst
        (λ z.
          includes (diff_incoming quote upper service reserved by_key seen (z ∷ rs)).1
            (route_key_of quote upper r)
          ≡ true)
        (sym e) (seen_head by_key seen rs r v)
  seen_all by_key seen (r' ∷ rs) r (inr i) v = elim (Bool-cases (is_valid_route r')) [
    | inr malformed ↦ rw malformed (seen_all by_key seen rs r i v)
    | inl valid ↦ elim (Bool-cases (includes seen (route_key_of quote upper r'))) [
      | inl again ↦ rw (valid, again) (seen_all by_key seen rs r i v)
      | inr first ↦
          rw (valid, first) (seen_all by_key (route_key_of quote upper r' ∷ seen) rs r i v)
    ]
  ]

  disabled_unseen :
      (seen : List String) (m : JsMap StoredHttpPath) (x : Disable)
      → In x (disables_of quote upper service reserved seen m)
      → includes seen x.route_key ≡ false
  unfolding disables_of
  disabled_unseen seen [] x i = elim i [ ]
  disabled_unseen seen ((k, ex) ∷ m) x i =
      elim (Bool-cases (not (includes seen k) && is_enabled ex)) [
        | inl gone ↦ elim (gone_cases gone i) [
          | inl e ↦ ap (λ (d : Disable). includes seen d.route_key) (sym e) ∙ ground (arith, gone)
          | inr j ↦ disabled_unseen seen m x j
        ]
        | inr stays ↦ disabled_unseen seen m x (rw stays at i)
      ]
    where
      gone_cases :
          not (includes seen k) && is_enabled ex ≡ true
          → In x (disables_of quote upper service reserved seen ((k, ex) ∷ m))
          → (record { id = ex.id; route_key = k } ≡ x)
            ⊎ In x (disables_of quote upper service reserved seen m)
      gone_cases gone i = rw gone at i

  -- A row that a diff disables is of no valid route of the manifest.
  pub diff_routes-disables :
      (incoming : List Route) (existing : List StoredHttpPath) (x : Disable) (r : Route)
      → In x (diff_routes quote upper service reserved incoming existing).disables
      → In r incoming
      → is_valid_route r ≡ true
      → route_key_of quote upper r ≢ x.route_key
  unfolding diff_routes
  diff_routes-disables incoming existing x r d i v e =
      let by_key = existing_by_key existing [] in
      let seen = (diff_incoming quote upper service reserved by_key [] incoming).1 in
      let unseen = disabled_unseen seen by_key x d in
      let is_seen = seen_all by_key [] incoming r i v in
      let clash : includes seen (route_key_of quote upper r) ≡ false =
        ap (includes seen) e ∙ unseen in
      cc
