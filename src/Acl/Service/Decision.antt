-- ===== src/Acl/Service/Decision.antt =====
-- What a decision means: the grants and roles that justify it, on a miss and from the cache.
use nestjs_amqp.Prelude.{
  String, Bool, true, false, Option, none, some, List, [], ◌∷◌, any, select, includes, In, ◌≡◌, ◌↔◌,
  refl, sym, ap, ◌∙◌, any_witness, any_of_In, includes_witness, includes_of_In, In-select,
  select_of_In, In-map, map_of_In,
}
use nestjs_amqp.Prelude.Result.{Result, ok}
use nestjs_amqp.Acl.Models.{AclRole, AclGrant, AclResourceContext}
use nestjs_amqp.Acl.Match.{norm, grant_matches_resource, grant_matches_resource_iff}
use nestjs_amqp.Acl.Service.{role_names, scoped, allowed_by, resolve_allowed}

-- The grant covers the resource: always when the check carries no context.
abbrev pub Covers : Option AclResourceContext → AclGrant → Type 0
Covers none g = Unit
Covers (some ctx) g =
    (norm g.company_id ≡ norm ctx.company_id) × (norm g.resource_id ≡ norm ctx.resource_id)

-- A grant of the user covers the resource and holds a role whose definition includes an action.
pub record Authorizes (rs : List AclRole) (gs : List AclGrant) (ctx : Option AclResourceContext)
    (actions : List String) : Type 0 where
  pub grant : AclGrant
  pub held : In grant gs
  pub covers : Covers ctx grant
  pub role : AclRole
  pub defined : In role rs
  pub granted : In role.name grant.roles
  pub action : String
  pub included : In action role.actions
  pub requested : In action actions

In-role_names :
    (rs : List AclRole) (actions : List String) (n : String)
    → In n (role_names rs actions)
    → (r : AclRole) × In r rs × (r.name ≡ n) × ((a : String) × In a r.actions × In a actions)
unfolding role_names
In-role_names rs actions n i =
    let p = λ (r : AclRole). any (λ a. includes actions a) r.actions in
    let (r, kept, named) = In-map (λ (r : AclRole). r.name) (select p rs) n i in
    let (there, holds) = In-select p rs r kept in
    let (a, has, asked) = any_witness (λ a. includes actions a) r.actions holds in
    (r, there, named, (a, has, includes_witness actions a asked))

role_names_of_In :
    (rs : List AclRole) (actions : List String) (r : AclRole) (a : String)
    → In r rs
    → In a r.actions
    → In a actions
    → In r.name (role_names rs actions)
unfolding role_names
role_names_of_In rs actions r a there has asked =
    map_of_In (λ (r : AclRole). r.name) _ r
      (select_of_In (λ (r : AclRole). any (λ a. includes actions a) r.actions) rs r there
        (any_of_In (λ a. includes actions a) r.actions a has (includes_of_In actions a asked)))

In-scoped :
    (ctx : Option AclResourceContext) (gs : List AclGrant) (g : AclGrant)
    → In g (scoped ctx gs)
    → In g gs × Covers ctx g
unfolding scoped
In-scoped none gs g i = (i, tt)
In-scoped (some ctx) gs g i =
    let (there, holds) = In-select (λ g. grant_matches_resource g (some ctx)) gs g i in
    (there, (grant_matches_resource_iff g (some ctx)).0 holds)

scoped_of_In :
    (ctx : Option AclResourceContext) (gs : List AclGrant) (g : AclGrant)
    → In g gs
    → Covers ctx g
    → In g (scoped ctx gs)
unfolding scoped
scoped_of_In none gs g i c = i
scoped_of_In (some ctx) gs g i c =
    select_of_In (λ g. grant_matches_resource g (some ctx)) gs g i
      ((grant_matches_resource_iff g (some ctx)).1 c)

-- allowed_by with the grants at hand, whatever the names
allowed_by_ok :
    (gs : List AclGrant) (ctx : Option AclResourceContext) (names : List String)
    → allowed_by (ok gs) ctx names
      ≡ ok (any (λ g. any (λ r. includes names r) g.roles) (scoped ctx gs))
unfolding allowed_by
allowed_by_ok gs ctx [] = ap ok (sym (never (scoped ctx gs)))
  where
    none_held : (rs : List String) → any (λ r. includes [] r) rs ≡ false
    none_held [] = refl
    none_held (r ∷ rs) = none_held rs

    never : (xs : List AclGrant) → any (λ g. any (λ r. includes [] r) g.roles) xs ≡ false
    never [] = refl
    never (g ∷ xs) = rw (none_held g.roles) (never xs)
allowed_by_ok gs ctx (n ∷ ns) = refl

-- A resolution allows exactly when some grant of the user covers the resource and holds a role that
-- includes one of the actions asked for.
pub resolve_allowed_iff :
    (user_id : String) (ctx : Option AclResourceContext) (actions : List String) (rs : List AclRole)
    (grants : String → Result (List AclGrant)) (gs : List AclGrant)
    → grants user_id ≡ ok gs
    → (resolve_allowed user_id ctx actions (ok rs) grants ≡ ok true) ↔ Authorizes rs gs ctx actions
unfolding resolve_allowed
resolve_allowed_iff u ctx actions rs grants gs e = (to, from)
  where
    held : AclGrant → Bool
    held g = any (λ r. includes (role_names rs actions) r) g.roles

    to : resolve_allowed u ctx actions (ok rs) grants ≡ ok true → Authorizes rs gs ctx actions
    to h =
        let yes' : any held (scoped ctx gs) ≡ true = cc (
          allowed_by_ok gs ctx (role_names rs actions),
          h,
          ap (λ g. allowed_by g ctx (role_names rs actions)) e,
        ) in
        let (g, i, some_role) = any_witness held (scoped ctx gs) yes' in
        let (there, covers) = In-scoped ctx gs g i in
        let (n, held_name, listed) =
          any_witness (λ r. includes (role_names rs actions) r) g.roles some_role in
        let (r, defined, named, (a, has, asked)) =
          In-role_names rs actions n (includes_witness (role_names rs actions) n listed) in
        record {
          grant = g;
          held = there;
          covers = covers;
          role = r;
          defined = defined;
          granted = rw named held_name;
          action = a;
          included = has;
          requested = asked;
        }

    from : Authorizes rs gs ctx actions → resolve_allowed u ctx actions (ok rs) grants ≡ ok true
    from w =
        let listed = role_names_of_In rs actions w.role w.action w.defined w.included w.requested in
        let has_role =
          any_of_In (λ r. includes (role_names rs actions) r) w.grant.roles w.role.name w.granted
            (includes_of_In (role_names rs actions) w.role.name listed) in
        rw e (
          allowed_by_ok gs ctx (role_names rs actions)
          ∙ ap ok (
              any_of_In held (scoped ctx gs) w.grant (scoped_of_In ctx gs w.grant w.held w.covers)
                has_role))
