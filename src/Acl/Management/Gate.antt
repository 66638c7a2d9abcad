-- ===== src/Acl/Management/Gate.antt =====
-- The calls that the gate refuses.
use nestjs_amqp.Prelude.{
  String, Bool, true, false, Option, none, some, List, if◌then◌else◌, ◌≡◌, ◌≢◌, refl, ap, ◌∙◌,
}
use nestjs_amqp.Prelude.Result.{AppError, Result, ok, err}
use nestjs_amqp.Acl.Models.{AclGrant}
use nestjs_amqp.Acl.Cache.{CacheStore}
use nestjs_amqp.Acl.Management.{
  Database, Options, Moment, Management, ◌and_then◌, check, context, assert_can_manage, apply_grant,
  apply_revoke, grant, revoke, caller, not_allowed,
}

module _ (s : CacheStore) (d : Database) (options : Options) where
  and_then-refused :
      {A B : Type 0} (r : Result A × Management s d options)
      (f : A → Management s d options → Result B × Management s d options)
      → ((a : A) → r.0 ≢ ok a)
      → ((b : B) → (◌and_then◌ s d options r f).0 ≢ ok b) × ((◌and_then◌ s d options r f).1 ≡ r.1)
  and_then-refused (ok a, st) f h = absurd (h a refl)
  and_then-refused (err e, st) f h = ((λ b q. cc), refl)

  -- the two checks in a row, the second only if the first does not allow
  abbrev gate :
      Result Bool × Management s d options
      → (Management s d options → Result Bool × Management s d options)
      → AppError
      → Result (Unit {0}) × Management s d options
  gate r again e = ◌and_then◌ s d options r λ manages st'.
      if manages
      then (ok tt, st')
      else ◌and_then◌ s d options (again st')
          λ system st''. if system then (ok tt, st'') else (err e, st'')

  gate-refused :
      (r : Result Bool × Management s d options)
      (again : Management s d options → Result Bool × Management s d options) (e : AppError)
      → r.0 ≢ ok true
      → (again r.1).0 ≢ ok true
      → (u : Unit {0}) → (gate r again e).0 ≢ ok u
  gate-refused (err x, st) again e h k u q = cc
  gate-refused (ok true, st) again e h k u q = h refl
  gate-refused (ok false, st) again e h k u q = second (again st) k q
    where
      second :
          (r : Result Bool × Management s d options)
          → r.0 ≢ ok true
          → (gate (ok false, st) (λ x. r) e).0 ≢ ok u
      second (err x, st) k q = cc
      second (ok true, st) k q = k refl
      second (ok false, st) k q = cc

  gate-db :
      (r : Result Bool × Management s d options)
      (again : Management s d options → Result Bool × Management s d options) (e : AppError)
      → ((st : Management s d options) → (again st).1.db ≡ st.db)
      → (gate r again e).1.db ≡ r.1.db
  gate-db (err x, st) again e h = refl
  gate-db (ok true, st) again e h = refl
  gate-db (ok false, st) again e h = second (again st) ∙ h st
    where
      second :
          (r : Result Bool × Management s d options)
          → (gate (ok false, st) (λ x. r) e).1.db ≡ r.1.db
      second (err x, st) = refl
      second (ok true, st) = refl
      second (ok false, st) = refl

  module _ (company_id resource_id current_user : Option String) (at later : Moment)
      (st : Management s d options) where
    abbrev pub manages : Result Bool × Management s d options
    manages =
        check s d options (caller s d options current_user) (some (context company_id resource_id))
          options.role_mgmt_action at st

    abbrev pub administers : Result Bool × Management s d options
    administers =
        check s d options (caller s d options current_user) none options.role_system_action later
          manages.1

    refused :
        (verb : String)
        → manages.0 ≢ ok true
        → administers.0 ≢ ok true
        → (u : Unit {0})
        → (assert_can_manage s d options
            (caller s d options current_user)
            company_id
            resource_id
            verb
            at
            later
            st).0
          ≢ ok u
    unfolding assert_can_manage
    refused verb h k =
        gate-refused manages
          (check s d options (caller s d options current_user) none options.role_system_action
            later)
          (not_allowed s d options verb) h k

    kept :
        (verb : String)
        → (assert_can_manage s d options
            (caller s d options current_user)
            company_id
            resource_id
            verb
            at
            later
            st).1.db
          ≡ st.db
    unfolding assert_can_manage check
    kept verb =
        gate-db manages
          (check s d options (caller s d options current_user) none options.role_system_action
            later)
          (not_allowed s d options verb) (λ st. refl)

    -- A caller whom neither the check on the target nor the check of the system action allows gets
    -- an error from grant and revoke, and the database is as before.
    pub grant-gated :
        (user_id : String) (roles : List String) (friendly_name : Option String)
        → manages.0 ≢ ok true
        → administers.0 ≢ ok true
        → ((g : AclGrant)
            → (grant s d options user_id roles resource_id company_id friendly_name current_user at
                later st).0
              ≢ ok g)
          × ((grant s d options user_id roles resource_id company_id friendly_name current_user at
                later st).1.db
              ≡ st.db)
          × ((g : Option AclGrant)
              → (revoke s d options user_id roles resource_id company_id current_user at later st).0
                ≢ ok g)
          × ((revoke s d options user_id roles resource_id company_id current_user at later st).1.db
              ≡ st.db)
    unfolding grant revoke
    grant-gated user_id roles friendly_name h k =
        let who = caller s d options current_user in
        let granting =
          assert_can_manage s d options who company_id resource_id "grant" at later st in
        let revoking =
          assert_can_manage s d options who company_id resource_id "revoke" at later st in
        let (g, same) =
          and_then-refused granting
            (λ allowed st'.
              apply_grant s d options user_id roles resource_id company_id friendly_name st')
            (refused "grant" h k) in
        let (r, same') =
          and_then-refused revoking
            (λ allowed st'. apply_revoke s d options user_id roles resource_id company_id st')
            (refused "revoke" h k) in
        (
          g,
          ap (λ (x : Management s d options). x.db) same ∙ kept "grant",
          r,
          ap (λ (x : Management s d options). x.db) same' ∙ kept "revoke",
        )
