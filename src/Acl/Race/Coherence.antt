-- ===== src/Acl/Race/Coherence.antt =====
-- The generation counter keeps stale decisions out of the RAM tier, at every interleaving.
pub mod Entries
use nestjs_amqp.Acl.Race.Coherence.Entries.{
  full_key, All-split, All-join, All-mono, get-get_cached, gen-get_cached, get-flush,
  set_cached_cases,
}
use nestjs_amqp.Prelude.{
  ℕ, ◌+◌, ◌≤◌, String, Bool, none, some, List, [], ◌∷◌, ◌++◌, ◌==◌, select, not, ◌≡◌, ◌≢◌, refl,
  sym, ap, ◌∙◌, All, All-append, In, select_of_In, arith, eq_iff, inl, inr, ◌⊎◌, Bool-cases,
  template,
}
use text.Mathlib.Text.{starts_with}
use mathlib.Core.Path.{subst}
use nestjs_amqp.Prelude.Result.{ok}
use nestjs_amqp.JsMap.{get}
use nestjs_amqp.JsMap.Laws.{get-delete, get-delete_where}
use nestjs_amqp.Acl.Models.{AclRole, AclGrant}
use nestjs_amqp.Acl.Cache.{
  RamEntry, Cache, CacheStore, key, user_prefix, get_cached, set_cached, ram_set,
  invalidate_local_ram, is_stale,
}
use nestjs_amqp.Acl.Cache.Ram.{
  IsValid, get-ram_set_self, get-ram_set_other, ram_set-IsValid, invalidate-IsValid,
  get-invalidate_user,
}
use nestjs_amqp.Acl.Cache.Tiers.{gen-invalidate, get_cached-IsValid, get_cached_sound}
use nestjs_amqp.Acl.Service.{resolve_allowed}
use nestjs_amqp.Acl.Race.{
  Query, action_key, Flight, World, write_grants, decision, Step, miss, resolve, store, abandon,
  write, flush, Reach, here, next,
}

module _ (s : CacheStore) (roles : List AclRole) (Asked : Query → Type 0)
    (apart : (q q' : Query) → Asked q → Asked q' → full_key q ≡ full_key q' → q ≡ q') where
  abbrev FlightOk : ℕ → (String → List AclGrant) → List String → Flight → Type 0
  FlightOk gen grants dirty f =
      Asked f.query
      × (f.seen ≤ gen)
      × ((v : Bool)
          → f.seen ≡ gen
          → f.verdict ≡ some v
          → ¬ In f.query.user_id dirty
          → decision roles grants f.query ≡ ok v)

  -- Where no invalidation of the user is due, what the RAM tier holds is what the database says.
  pub record IsCoherent (w : World) : Type 0 where
    pub valid : IsValid w.cache
    pub entries :
        (q : Query) (e : RamEntry)
        → Asked q
        → ¬ In q.user_id w.dirty
        → get w.cache.ram (full_key q) ≡ some e
        → decision roles w.grants q ≡ ok e.v
    pub flights : All (FlightOk w.cache.gen w.grants w.dirty) w.checks

  decision-write :
      (grants : String → List AclGrant) (u : String) (gs : List AclGrant) (q : Query)
      → u ≢ q.user_id
      → decision roles (write_grants grants u gs) q ≡ decision roles grants q
  unfolding resolve_allowed
  decision-write grants u gs q n = ground (arith, eq_iff u q.user_id)

  miss-IsCoherent :
      (w : World) (q : Query) (now later : ℕ)
      → Asked q
      → IsCoherent w
      → IsCoherent (record w {
        cache = (get_cached s w.cache none q.user_id (action_key q) now later).1;
        checks = record { query = q; seen = w.cache.gen; verdict = none } ∷ w.checks;
      })
  miss-IsCoherent w q now later asked h =
      let same_gen = gen-get_cached s w.cache q.user_id (action_key q) now later in
      record {
        valid = get_cached-IsValid s w.cache none q.user_id (action_key q) now later h.valid;
        entries = λ p e ask clean found.
            elim (get-get_cached s w.cache q.user_id (action_key q) (full_key p) now later) [
              | inl gone ↦ absurd (cc)
              | inr kept ↦ h.entries p e ask clean (sym kept ∙ found)
            ];
        flights =
            subst
              (λ g.
                All (FlightOk g w.grants w.dirty)
                  (record { query = q; seen = w.cache.gen; verdict = none } ∷ w.checks))
              (sym same_gen) ((asked, omega arith, λ v e none_yet c. absurd (cc)), h.flights);
      }

  resolve-IsCoherent :
      (w : World) (xs ys : List Flight) (f : Flight) (v : Bool)
      → w.checks ≡ xs ++ f ∷ ys
      → decision roles w.grants f.query ≡ ok v
      → IsCoherent w
      → IsCoherent (record w { checks = xs ++ record f { verdict = some v } ∷ ys })
  resolve-IsCoherent w xs ys f v split says h =
      let P = FlightOk w.cache.gen w.grants w.dirty in
      let (l, (asked, older, _), r) = All-split P xs ys f (subst (All P) split h.flights) in
      record {
        valid = h.valid;
        entries = h.entries;
        flights =
            All-join P xs ys (record f { verdict = some v }) l
              (asked, older, λ b e same clean. says ∙ (cc)) r;
      }

  drop-IsCoherent :
      (w : World) (xs ys : List Flight) (f : Flight)
      → w.checks ≡ xs ++ f ∷ ys
      → IsCoherent w
      → IsCoherent (record w { checks = xs ++ ys })
  drop-IsCoherent w xs ys f split h =
      let P = FlightOk w.cache.gen w.grants w.dirty in
      let (l, _, r) = All-split P xs ys f (subst (All P) split h.flights) in
      record { valid = h.valid; entries = h.entries; flights = All-append P xs ys l r }

  write-IsCoherent :
      (w : World) (u : String) (gs : List AclGrant)
      → IsCoherent w
      → IsCoherent (record w { grants = write_grants w.grants u gs; dirty = u ∷ w.dirty })
  write-IsCoherent w u gs h = record {
    valid = h.valid;
    entries = λ q e ask clean found.
        decision-write w.grants u gs q (λ same. clean (inl same))
        ∙ h.entries q e ask (λ i. clean (inr i)) found;
    flights =
        All-mono (FlightOk w.cache.gen w.grants w.dirty) _ w.checks
          (λ f (asked, older, agrees). (
            asked,
            older,
            λ v e has clean.
                decision-write w.grants u gs f.query (λ same. clean (inl same))
                ∙ agrees v e has (λ i. clean (inr i)),
          ))
          h.flights;
  }

  flush-IsCoherent :
      (w : World) (u : String)
      → IsCoherent w
      → IsCoherent (record w {
        cache = invalidate_local_ram w.cache (some u);
        dirty = select (λ x. not (x == u)) w.dirty;
      })
  flush-IsCoherent w u h = record {
    valid = invalidate-IsValid w.cache (some u) h.valid;
    entries = λ q e ask clean found. elim (Bool-cases (q.user_id == u)) [
      | inl same ↦ absurd (
          cc (
            get-invalidate_user w.cache u (action_key q),
            ap (λ x. key x (action_key q)) ((eq_iff q.user_id u).0 same),
            found,
          ))
      | inr other ↦ elim (get-flush w.cache u (full_key q)) [
        | inl gone ↦ absurd (cc)
        | inr kept ↦
            h.entries q e ask
              (λ i. clean (select_of_In (λ x. not (x == u)) w.dirty q.user_id i (rw other refl)))
              (sym kept ∙ found)
      ]
    ];
    flights =
        All-mono (FlightOk w.cache.gen w.grants w.dirty) _ w.checks
          (λ f (asked, older, agrees). (
            asked,
            omega (arith, gen-invalidate w.cache (some u)),
            λ v e has clean. absurd (omega (arith, gen-invalidate w.cache (some u))),
          ))
          h.flights;
  }

  -- a fresh decision goes into the RAM tier
  ram_set-IsCoherent :
      (w : World) (xs ys : List Flight) (f : Flight) (e : RamEntry)
      → w.checks ≡ xs ++ f ∷ ys
      → f.seen ≡ w.cache.gen
      → f.verdict ≡ some e.v
      → IsCoherent w
      → IsCoherent (record w { cache = ram_set w.cache (full_key f.query) e; checks = xs ++ ys })
  unfolding ram_set
  ram_set-IsCoherent w xs ys f e split same_gen has h =
      let P = FlightOk w.cache.gen w.grants w.dirty in
      let (l, (asked, _, agrees), r) = All-split P xs ys f (subst (All P) split h.flights) in
      record {
        valid = ram_set-IsValid w.cache (full_key f.query) e h.valid;
        entries = λ q d ask clean found. elim (Bool-cases (full_key f.query == full_key q)) [
          | inl same ↦
              let keys = (eq_iff (full_key f.query) (full_key q)).0 same in
              let query = apart f.query q asked ask keys in
              let entry : some e ≡ some d =
                sym (get-ram_set_self w.cache (full_key f.query) e)
                ∙ ap (get (ram_set w.cache (full_key f.query) e).ram) keys
                ∙ found in
              let same_entry : e ≡ d = cc in
              let clean' = subst (λ x. ¬ In x.user_id w.dirty) (sym query) clean in
              ap (decision roles w.grants) (sym query)
              ∙ agrees e.v same_gen has clean'
              ∙ ap (λ (x : RamEntry). ok x.v) same_entry
          | inr other ↦
              elim (get-ram_set_other w.cache (full_key f.query) (full_key q) e h.valid.distinct
                (λ same. ground (arith, eq_iff (full_key f.query) (full_key q)))) [
                  | inl gone ↦ absurd (cc)
                  | inr kept ↦ h.entries q d ask clean (sym kept ∙ found)
                ]
        ];
        flights = All-append P xs ys l r;
      }

  store-IsCoherent :
      (w : World) (xs ys : List Flight) (f : Flight) (v : Bool) (now : ℕ)
      → w.checks ≡ xs ++ f ∷ ys
      → f.verdict ≡ some v
      → IsCoherent w
      → IsCoherent (record w {
        cache =
            (set_cached s w.cache none f.query.user_id (action_key f.query) v (some f.seen) now).0;
        checks = xs ++ ys;
      })
  store-IsCoherent w xs ys f v now split has h =
      let e : RamEntry = record { v = v; exp = now + w.cache.ram_ttl_ms } in
      let after = λ (c : Cache). IsCoherent (record w { cache = c; checks = xs ++ ys }) in
      elim (set_cached_cases s w.cache f.query.user_id (action_key f.query) v f.seen now) [
        | inl unchanged ↦ subst after (sym unchanged) (drop-IsCoherent w xs ys f split h)
        | inr (fresh, written) ↦
            subst after (sym written) (ram_set-IsCoherent w xs ys f e split fresh has h)
      ]

  Step-IsCoherent : {v w : World} → Step s roles Asked v w → IsCoherent v → IsCoherent w
  Step-IsCoherent (miss w q now later asked _) h = miss-IsCoherent w q now later asked h
  Step-IsCoherent (resolve w xs ys f v split says) h = resolve-IsCoherent w xs ys f v split says h
  Step-IsCoherent (store w xs ys f v now split has) h = store-IsCoherent w xs ys f v now split has h
  Step-IsCoherent (abandon w xs ys f split) h = drop-IsCoherent w xs ys f split h
  Step-IsCoherent (write w u gs) h = write-IsCoherent w u gs h
  Step-IsCoherent (flush w u) h = flush-IsCoherent w u h

  Reach-IsCoherent : {v w : World} → IsCoherent v → Reach s roles Asked v w → IsCoherent w
  Reach-IsCoherent h here = h
  Reach-IsCoherent h (next r st) = Step-IsCoherent st (Reach-IsCoherent h r)

  -- While the roles stay as they are and no two of the queries asked share a cache key, from a coherent
  -- start and at every interleaving of checks and grant mutations: a decision that the cache answers
  -- for a user with no invalidation due is the one that the database gives.
  pub get_cached-coherent :
      (v w : World) (q : Query) (now later : ℕ) (b : Bool)
      → IsCoherent v
      → Reach s roles Asked v w
      → Asked q
      → ¬ In q.user_id w.dirty
      → (get_cached s w.cache none q.user_id (action_key q) now later).0 ≡ some b
      → decision roles w.grants q ≡ ok b
  get_cached-coherent v w q now later b start run asked clean answer =
      let h = Reach-IsCoherent start run in
      elim (get_cached_sound s w.cache none q.user_id (action_key q) now later b answer) [
        | inl (e, found, _, says) ↦ h.entries q e asked clean found ∙ ap ok says
        | inr (st, reply, absent, _, _) ↦ absurd (cc)
      ]
