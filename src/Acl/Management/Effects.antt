-- ===== src/Acl/Management/Effects.antt =====
-- What a grant does: to the decisions that the database supports, and to those that are cached.
use nestjs_amqp.Prelude.{
  dedup_of_In, ◌+◌, String, Bool, true, Option, none, some, List, [], ◌∷◌, ◌++◌, ◌==◌, find,
  is_empty, ◌≡◌, inl, inr, refl, sym, ap, ◌∙◌, arith, Bool-cases, In, In-append_right,
}
use nestjs_amqp.Prelude.Result.{Result, ok, err}
use nestjs_amqp.JsMap.{get}
use nestjs_amqp.Acl.Models.{AclRole, AclGrant}
use nestjs_amqp.Acl.Match.{norm, grant_matches_resource, grant_matches_resource_iff}
use nestjs_amqp.Acl.Cache.{CacheStore, key, invalidate, invalidate_local_ram}
use nestjs_amqp.Acl.Cache.Ram.{get-invalidate_user}
use nestjs_amqp.Acl.Cache.Tiers.{gen-invalidate}
use nestjs_amqp.Acl.Cache.{Cache}
use nestjs_amqp.Acl.Service.{resolve_allowed}
use nestjs_amqp.Acl.Service.Decision.{resolve_allowed_iff}
use nestjs_amqp.Acl.Management.{
  Database, Options, Management, ◌and_then◌, context, apply_grant, find_grant, assert_roles_exist,
  merge_or_insert, invalidate_user, invalidating, reading, GrantPatch, GrantNames, or_absent,
  broadcast,
}

-- What updateById does to a grant.
abbrev pub named : Option GrantNames → AclGrant → AclGrant
named none g = g
named (some names) g = record g {
  company_id = names.company_id;
  friendly_name = names.friendly_name;
}

abbrev pub patched : GrantPatch → AclGrant → AclGrant
patched p g = named p.names (record g { roles = p.roles })

-- The repository's contract for grants: what was inserted or updated is found again.
pub record IsStore (d : Database) : Type 0 where
  pub insert_found :
      (db : d.Db) (g g' : AclGrant)
      → (d.insert_grant db g).0 ≡ ok g'
      → (gs : List AclGrant) × (d.grants_of (d.insert_grant db g).1 g.user_id ≡ ok gs)
        × ((id : Option String) × In (record g { id = id }) gs)
  pub update_found :
      (db : d.Db) (u : String) (gs : List AclGrant) (g g' : AclGrant) (p : GrantPatch)
      → d.grants_of db u ≡ ok gs
      → In g gs
      → (d.update_grant db g.id p).0 ≡ ok g'
      → (gs' : List AclGrant) × (d.grants_of (d.update_grant db g.id p).1 u ≡ ok gs')
        × In (patched p g) gs'

In-find :
    {A : Type 0} (p : A → Bool) (xs : List A) (a : A) → find p xs ≡ some a → In a xs × (p a ≡ true)
In-find p [] a h = absurd (cc)
In-find p (x ∷ xs) a h = elim (Bool-cases (p x)) [
  | inl hit ↦ let e : x ≡ a = same hit h in (inl e, sym (ap p e) ∙ hit)
  | inr miss ↦ let (i, e) = In-find p xs a (rw miss at h) in (inr i, e)
]
  where
    same : p x ≡ true → find p (x ∷ xs) ≡ some a → x ≡ a
    same hit h = let k : some x ≡ some a = rw hit at h in cc

module _ (s : CacheStore) (d : Database) (options : Options) where
  abbrev State : Type 0
  State = Management s d options

  and_then-ok :
      {A B : Type 0} (r : Result A × State) (f : A → State → Result B × State) (b : B)
      → (◌and_then◌ s d options r f).0 ≡ ok b
      → (a : A) × (r.0 ≡ ok a)
        × ((f a r.1).0 ≡ ok b)
        × ((◌and_then◌ s d options r f).1 ≡ (f a r.1).1)
  and_then-ok (ok a, st) f b h = (a, refl, h, refl)
  and_then-ok (err e, st) f b h = absurd (cc)

  reading_keeps :
      {A B : Type 0} (r : Result A) (f : A → Result B) (st : State)
      → (◌and_then◌ s d options (r, st) (λ a st'. (f a, st'))).1 ≡ st
  reading_keeps (ok a) f st = refl
  reading_keeps (err e) f st = refl

  assert_roles_exist-keeps :
      (roles : List String) (st : State) → (assert_roles_exist s d options roles st).1 ≡ st
  unfolding assert_roles_exist
  assert_roles_exist-keeps roles st = reading_keeps (d.roles_named st.db roles) _ st

  find_grant-keeps :
      (u : String) (c r : Option String) (st : State) → (find_grant s d options u c r st).1 ≡ st
  unfolding find_grant
  find_grant-keeps u c r st = reading_keeps (d.grants_of st.db u) _ st

  module _ (u : String) (roles : List String) (resource_id company_id friendly_name : Option String)
      (st : State) where
    abbrev granting : Result AclGrant × State
    granting = apply_grant s d options u roles resource_id company_id friendly_name st

    abbrev written : Option AclGrant → Result AclGrant × State
    written existing =
        merge_or_insert s d options u roles resource_id company_id friendly_name existing st

    abbrev write_step : Option AclGrant → State → Result AclGrant × State
    write_step existing st' =
        invalidating s d options u
          (merge_or_insert s d options u roles resource_id company_id friendly_name existing st')

    abbrev find_step : State → Result AclGrant × State
    find_step st' =
        ◌and_then◌ s d options (find_grant s d options u company_id resource_id st') write_step

    granting-steps :
        (g : AclGrant)
        → granting.0 ≡ ok g
        → granting
          ≡ ◌and_then◌ s d options
              (assert_roles_exist s d options roles st)
              (λ known st'. find_step st')
    unfolding apply_grant
    granting-steps g h = elim (Bool-cases (u == "")) [
      | inl nobody ↦ absurd (ground (arith, nobody, h))
      | inr somebody ↦ elim (Bool-cases (is_empty roles)) [
        | inl nothing ↦ absurd (ground (arith, somebody, nothing, h))
        | inr something ↦ rw (somebody, something) refl
      ]
    ]

    -- a grant that succeeds has found what was there, written, and invalidated
    apply_grant-ok :
        (g : AclGrant)
        → granting.0 ≡ ok g
        → (existing : Option AclGrant) × ((find_grant s d options u company_id resource_id st).0
            ≡ ok existing)
          × ((written existing).0 ≡ ok g)
          × (granting.1 ≡ invalidate_user s d options u (written existing).1)
    apply_grant-ok g h =
        let steps = granting-steps g h in
        let known = assert_roles_exist-keeps roles st in
        let found = find_grant-keeps u company_id resource_id st in
        let (k, e1, h1, s1) =
          and_then-ok (assert_roles_exist s d options roles st) (λ known st'. find_step st') g
            (ap (λ (x : Result AclGrant × State). x.0) (sym steps) ∙ h) in
        let (existing, e2, h2, s2) =
          and_then-ok (find_grant s d options u company_id resource_id st) write_step g
            (ap (λ x. (find_step x).0) (sym known) ∙ h1) in
        let (g', e3, h3, s3) =
          and_then-ok (written existing) (λ a st'. (ok a, invalidate_user s d options u st')) g
            (ap (λ x. (write_step existing x).0) (sym found) ∙ h2) in
        (
          existing,
          e2,
          e3 ∙ h3,
          ap (λ (x : Result AclGrant × State). x.1) steps
              ∙ s1
              ∙ ap (λ x. (find_step x).1) known
              ∙ s2
              ∙ ap (λ x. (write_step existing x).1) found
              ∙ s3,
        )

    db-invalidate_user : (st' : State) → (invalidate_user s d options u st').db ≡ st'.db
    unfolding invalidate_user broadcast
    db-invalidate_user st' = elim (Bool-cases options.broadcasts) [
      | inl on ↦ rw on refl
      | inr off ↦ rw off refl
    ]

    found_among :
        (existing : Option AclGrant)
        → (find_grant s d options u company_id resource_id st).0 ≡ ok existing
        → (gs : List AclGrant) × (d.grants_of st.db u ≡ ok gs)
          × (find (λ g. grant_matches_resource g (some (context company_id resource_id))) gs
              ≡ existing)
    unfolding find_grant
    found_among existing h =
        let (gs, e, k, q) =
          and_then-ok (reading s d options st (d.grants_of st.db u))
            (λ all st'. (
              ok (find (λ g. grant_matches_resource g (some (context company_id resource_id))) all),
              st',
            ))
            existing h in
        (gs, e, ok-injective k)
      where
        ok-injective : {a b : Option AclGrant} → ok a ≡ ok b → a ≡ b
        ok-injective h = cc

    kept_id : (a b : Option String) → norm b ≡ norm a → norm (or_absent a b) ≡ norm a
    kept_id none b h = h
    kept_id (some a) b h = refl

    -- after the write, a grant of the user covers the target and holds the roles
    target_held :
        IsStore d
        → (existing : Option AclGrant) (g : AclGrant) (role : String)
        → (find_grant s d options u company_id resource_id st).0 ≡ ok existing
        → (written existing).0 ≡ ok g
        → In role roles
        → (gs : List AclGrant) × (d.grants_of (written existing).1.db u ≡ ok gs)
          × ((held : AclGrant) × In held gs
              × (norm held.company_id ≡ norm company_id)
              × (norm held.resource_id ≡ norm resource_id)
              × In role held.roles)
    target_held store none g role f h i =
        let (gs, e, (id, there)) = store.insert_found st.db _ g h in
        (gs, e, (_, there, refl, refl, dedup_of_In roles role i))
    target_held store (some old) g role f h i =
        let (before, listed, matched) = found_among (some old) f in
        let (among, matches) = In-find _ before old matched in
        let (same_company, same_resource) =
          (grant_matches_resource_iff old (some (context company_id resource_id))).0 matches in
        let (gs, e, there) = store.update_found st.db u before old g _ listed among h in
        (
          gs,
          e,
          (
            _,
            there,
            kept_id company_id old.company_id same_company,
            same_resource,
            dedup_of_In (old.roles ++ roles) role (In-append_right old.roles roles role i),
          ),
        )

    -- After a grant that succeeds, the database supports every action that one of the roles
    -- includes, for the user on the target.
    pub apply_grant-authorizes :
        (g : AclGrant) (rs : List AclRole) (role : AclRole) (action : String)
        → IsStore d
        → granting.0 ≡ ok g
        → In role.name roles
        → In role rs
        → In action role.actions
        → resolve_allowed u
            (some (context company_id resource_id))
            (action ∷ [])
            (ok rs)
            (d.grants_of granting.1.db)
          ≡ ok true
    apply_grant-authorizes g rs role action store h named defined included =
        let (existing, f, w, after) = apply_grant-ok g h in
        let (gs, e, (held, there, company, resource, has)) =
          target_held store existing g role.name f w named in
        let same : granting.1.db ≡ (written existing).1.db =
          ap (λ (x : State). x.db) after ∙ db-invalidate_user (written existing).1 in
        (resolve_allowed_iff u (some (context company_id resource_id)) (action ∷ []) rs
            (d.grants_of granting.1.db) gs (ap (λ db. d.grants_of db u) same ∙ e)).1
          (record {
            grant = held;
            held = there;
            covers = (company, resource);
            role = role;
            defined = defined;
            granted = has;
            action = action;
            included = included;
            requested = inl refl;
          })

    cache-invalidate :
        (c : Cache) (l2 : Option s.Store)
        → (invalidate s c l2 (some u)).0 ≡ invalidate_local_ram c (some u)
    unfolding invalidate
    cache-invalidate c none = refl
    cache-invalidate c (some l2) = refl

    cache-invalidate_user :
        (st' : State)
        → (invalidate_user s d options u st').acl.cache
          ≡ invalidate_local_ram st'.acl.cache (some u)
    unfolding invalidate_user broadcast
    cache-invalidate_user st' = elim (Bool-cases options.broadcasts) [
      | inl on ↦ rw on (cache-invalidate st'.acl.cache st'.acl.l2)
      | inr off ↦ rw off (cache-invalidate st'.acl.cache st'.acl.l2)
    ]

    written-acl : (existing : Option AclGrant) → (written existing).1.acl ≡ st.acl
    written-acl none = refl
    written-acl (some old) = refl

    -- After a grant that succeeds, no decision of the user is left in the RAM tier, and the
    -- generation has passed, so that no decision from before it can be stored.
    pub apply_grant-invalidates :
        (g : AclGrant) (action : String)
        → granting.0 ≡ ok g
        → (get granting.1.acl.cache.ram (key u action) ≡ none)
          × (granting.1.acl.cache.gen ≡ st.acl.cache.gen + 1)
    apply_grant-invalidates g action h =
        let (existing, f, w, after) = apply_grant-ok g h in
        let dropped : granting.1.acl.cache ≡ invalidate_local_ram st.acl.cache (some u) =
          ap (λ (x : State). x.acl.cache) after
          ∙ cache-invalidate_user (written existing).1
          ∙ ap (λ acl. invalidate_local_ram acl.cache (some u)) (written-acl existing) in
        (
          ap (λ c. get c.ram (key u action)) dropped ∙ get-invalidate_user st.acl.cache u action,
          ap (λ c. c.gen) dropped ∙ gen-invalidate st.acl.cache (some u),
        )
