-- ===== src/Proxy/Auth/Gate.antt =====
-- The authorization of a request by actions.
use nestjs_amqp.Prelude.{
  String, Bool, true, false, ◌||◌, Option, none, some, List, ◌==◌, ◌≡◌, ◌⊎◌, inl, inr, refl,
  is_empty, arith, eq_iff, Bool-cases, Option-cases,
}
use nestjs_amqp.Prelude.Result.{Result, ok}
use nestjs_amqp.Admin.Manifest.{Json, truthy}
use nestjs_amqp.Acl.Service.{ActionArg, one, many, to_list}
use nestjs_amqp.Proxy.Provider.{Provider, Providers, given, find_provider}
use nestjs_amqp.Proxy.Auth.{
  PathDefinition, ProcessedAuthData, Acl, ResourceContext, ask, uid_of, check_actions_for_claims,
  check_actions, has_actions, actions_of, shown,
}

-- The ACL service has allowed one of the actions to the user that the claims name.
abbrev pub IsGranted :
    Acl → Provider → ProcessedAuthData → List String → Option ResourceContext → Type 0
IsGranted acl p claims actions ctx =
    (check : (Json → Option ResourceContext → List String → Result Bool)) × (uid : Json) × (acl
      ≡ some check)
    × (uid_of p claims ≡ some uid)
    × (truthy (some uid) ≡ true)
    × (check uid ctx actions ≡ ok true)

ask-ok :
    (check : Json → Option ResourceContext → List String → Result Bool) (user : Option Json)
    (ctx : Option ResourceContext) (actions : List String)
    → ask check user ctx actions ≡ ok true
    → (uid : Json) × (user ≡ some uid)
      × (truthy (some uid) ≡ true)
      × (check uid ctx actions ≡ ok true)
ask-ok check none ctx actions h = absurd (cc)
ask-ok check (some uid) ctx actions h = (uid, refl, ground (arith, h), ground (arith, h))

abbrev token_kind : Provider → Bool
token_kind p = p.kind == "jwt" || p.kind == "jwks"

token_kind-cases : (p : Provider) → token_kind p ≡ true → (p.kind ≡ "jwt") ⊎ (p.kind ≡ "jwks")
token_kind-cases p h = ground (arith, h, eq_iff p.kind "jwt", eq_iff p.kind "jwks")

pub check_actions_for_claims-guards :
    (acl : Acl) (p : Provider) (claims : ProcessedAuthData) (actions : List String)
    (ctx : Option ResourceContext)
    → is_empty actions ≡ false
    → check_actions_for_claims acl p claims actions ctx ≡ ok true
    → (token_kind p ≡ true) × (given p.uid_claim ≡ true)
unfolding check_actions_for_claims
check_actions_for_claims-guards acl p claims actions ctx n h = elim (Bool-cases (token_kind p)) [
  | inr k ↦ absurd (ground (arith, n, k, h))
  | inl k ↦ elim (Bool-cases (given p.uid_claim)) [
    | inr u ↦ absurd (ground (arith, n, k, u, h))
    | inl u ↦ (k, u)
  ]
]

pub check_actions_for_claims-IsGranted :
    (acl : Acl) (p : Provider) (claims : ProcessedAuthData) (actions : List String)
    (ctx : Option ResourceContext)
    → is_empty actions ≡ false
    → check_actions_for_claims acl p claims actions ctx ≡ ok true
    → token_kind p ≡ true
    → given p.uid_claim ≡ true
    → IsGranted acl p claims actions ctx
unfolding check_actions_for_claims
check_actions_for_claims-IsGranted none p claims actions ctx n h k u =
    absurd (ground (arith, n, k, u, h))
check_actions_for_claims-IsGranted (some check) p claims actions ctx n h k u =
    let a : ask check (uid_of p claims) ctx actions ≡ ok true = ground (arith, n, k, u, h) in
    let (uid, e, t, c) = ask-ok check (uid_of p claims) ctx actions a in (check, uid, refl, e, t, c)

pub has_actions-is_empty :
    (a : Option ActionArg) → has_actions a ≡ true → is_empty (actions_of a) ≡ false
unfolding has_actions to_list
has_actions-is_empty none h = absurd (cc)
has_actions-is_empty (some (one s)) h = ground (arith, h)
has_actions-is_empty (some (many ss)) h = ground (arith, h)

-- A path without actions needs no grant; one with actions has an identity provider for tokens, whose
-- user the ACL service allows one of the actions.
abbrev pub IsAuthorized :
    Acl → Providers → ProcessedAuthData → PathDefinition → Option ResourceContext → Type 0
IsAuthorized acl st claims path ctx =
    (has_actions path.actions ≡ false)
    ⊎ ((p : Provider) × (find_provider st.current (shown path.auth) ≡ some p)
        × ((p.kind ≡ "jwt") ⊎ (p.kind ≡ "jwks"))
        × IsGranted acl p claims (actions_of path.actions) ctx)

pub check_actions-IsAuthorized :
    (acl : Acl) (st : Providers) (claims : ProcessedAuthData) (path : PathDefinition)
    (ctx : Option ResourceContext)
    → check_actions acl st claims path ctx ≡ ok true
    → IsAuthorized acl st claims path ctx
unfolding check_actions
check_actions-IsAuthorized acl st claims path ctx h = elim (Bool-cases (has_actions path.actions)) [
  | inr e ↦ inl e
  | inl e ↦ elim (Option-cases (find_provider st.current (shown path.auth))) [
    | inl f ↦ absurd (ground (arith, e, f, h))
    | inr (p, f) ↦
        let n = has_actions-is_empty path.actions e in
        let h' : check_actions_for_claims acl p claims (actions_of path.actions) ctx ≡ ok true =
          ground (arith, e, f, h) in
        let (k, u) =
          check_actions_for_claims-guards acl p claims (actions_of path.actions) ctx n h' in
        inr (
          p,
          f,
          token_kind-cases p k,
          check_actions_for_claims-IsGranted acl p claims (actions_of path.actions) ctx n h' k u,
        )
  ]
]
