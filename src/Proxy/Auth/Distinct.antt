-- ===== src/Proxy/Auth/Distinct.antt =====
-- The claims of a request have distinct names.
use package.text.Mathlib.Text.{starts_with}
use nestjs_amqp.Prelude.{
  String, Bool, true, false, not, Option, none, some, List, [], ◌∷◌, ◌==◌, if◌then◌else◌, split,
  ◌||◌,
}
use nestjs_amqp.Prelude.Result.{Result, ok, err, ◌>>=◌}
use nestjs_amqp.JsMap.{JsMap, get, set}
use nestjs_amqp.JsMap.Laws.{IsMap, set-IsMap}
use nestjs_amqp.Admin.Manifest.{text, boolean, truthy}
use nestjs_amqp.Proxy.Provider.{Provider, Providers, JwksClient, given, find_provider}
use nestjs_amqp.Proxy.Jwt.{Claims}
use nestjs_amqp.Proxy.Auth.{
  Request, PathDefinition, ProcessedAuthData, Platform, process_auth_data, map_claim, map_entries,
  map_claims, accepted, denied, bearer, verify_token, check_jwt, check_basic_auth,
  check_string_compare, basic_identity, basic_credentials, by_kind, by_provider, at, shown, header,
}

-- A result that is a map, if there is one.
abbrev pub OfMap : Result ProcessedAuthData → Type 0
OfMap (ok a) = IsMap a
OfMap (err e) = Unit

if-OfMap :
    (b : Bool) (x y : Result ProcessedAuthData) → OfMap x → OfMap y → OfMap (if b then x else y)
if-OfMap true x y p q = p
if-OfMap false x y p q = q

if-IsMap : (b : Bool) (x y : ProcessedAuthData) → IsMap x → IsMap y → IsMap (if b then x else y)
if-IsMap true x y p q = p
if-IsMap false x y p q = q

map_claim-OfMap :
    (dest_of : String → String) (p : Provider) (decoded : Claims) (parts : List String)
    (out : ProcessedAuthData)
    → IsMap out
    → OfMap (map_claim dest_of p decoded parts out)
map_claim-OfMap dest_of p decoded [] out i = i
map_claim-OfMap dest_of p decoded (source ∷ []) out i =
    if-OfMap (truthy (get decoded source)) _ (ok out) tt i
map_claim-OfMap dest_of p decoded (source ∷ dest ∷ more) out i =
    if-OfMap (truthy (get decoded source)) _ (ok out)
      (set-IsMap out (header p.header_prefix (dest_of dest)) _ i) i

then-OfMap :
    (r : Result ProcessedAuthData) (f : ProcessedAuthData → Result ProcessedAuthData)
    → OfMap r
    → ((a : ProcessedAuthData) → IsMap a → OfMap (f a))
    → OfMap (r >>= f)
then-OfMap (ok a) f i k = k a i
then-OfMap (err e) f i k = tt

map_entries-OfMap :
    (dest_of : String → String) (p : Provider) (decoded : Claims) (entries : List String)
    (out : ProcessedAuthData)
    → IsMap out
    → OfMap (map_entries dest_of p decoded entries out)
map_entries-OfMap dest_of p decoded [] out i = i
map_entries-OfMap dest_of p decoded (entry ∷ entries) out i =
    then-OfMap (map_claim dest_of p decoded (split 58 entry) out)
      (λ a. map_entries dest_of p decoded entries a)
      (map_claim-OfMap dest_of p decoded (split 58 entry) out i)
      (λ a j. map_entries-OfMap dest_of p decoded entries a j)

entries-OfMap :
    (dest_of : String → String) (p : Provider) (decoded : Option Claims)
    → OfMap (map_claims dest_of p decoded)
unfolding map_claims
entries-OfMap dest_of p none = (tt, tt)
entries-OfMap dest_of p (some decoded) =
    elim p.jwt_map
      as (λ m.
        OfMap
          (elim m [ none ↦ ok accepted | some es ↦ map_entries dest_of p decoded es accepted ])) [
            | none ↦ (tt, tt)
            | some es ↦ map_entries-OfMap dest_of p decoded es accepted (tt, tt)
          ]

basic_identity-IsMap : (p : Provider) (parts : List String) → IsMap (basic_identity p parts)
basic_identity-IsMap p [] = (tt, tt)
basic_identity-IsMap p (user ∷ []) = (tt, tt)
basic_identity-IsMap p (user ∷ password ∷ more) =
    if-IsMap _ _ denied
      (set-IsMap _ "success" (boolean true) (
        set-IsMap _ (header p.header_prefix "USERID") (text user)
          (set-IsMap denied (header p.header_prefix "USERNAME") (text user) (tt, tt))))
      (tt, tt)

basic_credentials-OfMap :
    (e : Platform) (p : Provider) (c : Option String) → OfMap (basic_credentials e p c)
basic_credentials-OfMap e p none = tt
basic_credentials-OfMap e p (some c) = basic_identity-IsMap p (split 58 (e.decode_base64 c))

check_basic_auth-OfMap :
    (e : Platform) (p : Provider) (h : Option String) → OfMap (check_basic_auth e p h)
unfolding check_basic_auth
check_basic_auth-OfMap e p none = (tt, tt)
check_basic_auth-OfMap e p (some h) =
    if-OfMap (not (starts_with h "Basic ")) (ok denied)
      (if not (given p.client_secret)
        then ok accepted
        else basic_credentials e p (at (split 32 h) 1))
      (tt, tt)
      (if-OfMap (not (given p.client_secret)) (ok accepted)
        (basic_credentials e p (at (split 32 h) 1)) (tt, tt)
        (basic_credentials-OfMap e p (at (split 32 h) 1)))

check_string_compare-IsMap : (p : Provider) (h : Option String) → IsMap (check_string_compare p h)
unfolding check_string_compare
check_string_compare-IsMap p none =
    if-IsMap (not (given p.secret)) accepted
      (if not (given p.header_prefix) then denied else denied) (tt, tt)
      (if-IsMap (not (given p.header_prefix)) denied denied (tt, tt) (tt, tt))
check_string_compare-IsMap p (some h) =
    let out = set (set denied (header p.header_prefix "TOKEN") (text h)) "success" (boolean true) in
    let compared = if h == shown p.secret then out else denied in
    if-IsMap (not (given p.secret)) accepted
      (if not (given p.header_prefix) then denied else compared) (tt, tt)
      (if-IsMap (not (given p.header_prefix)) denied compared (tt, tt)
        (if-IsMap (h == shown p.secret) out denied
          (set-IsMap (set denied (header p.header_prefix "TOKEN") (text h)) "success" (boolean true)
            (set-IsMap denied (header p.header_prefix "TOKEN") (text h) (tt, tt)))
          (tt, tt)))

pick-OfMap :
    (b : Bool) (x y : Result ProcessedAuthData × JsMap JwksClient)
    → OfMap x.0
    → OfMap y.0
    → OfMap (if b then x else y).0
pick-OfMap true x y p q = p
pick-OfMap false x y p q = q

by_kind-OfMap :
    (e : Platform) (p : Provider) (h : Option String) (clients : JsMap JwksClient)
    → OfMap (by_kind e p h clients).0
unfolding check_jwt
by_kind-OfMap e p h clients =
    pick-OfMap (p.kind == "basic") (check_basic_auth e p h, clients) _
      (check_basic_auth-OfMap e p h)
      (pick-OfMap (p.kind == "jwt" || p.kind == "jwks") (check_jwt e p h clients) _
        (entries-OfMap e.dest_of p (verify_token e p (bearer h) clients).0)
        (pick-OfMap (p.kind == "str-compare") (ok (check_string_compare p h), clients)
          (ok denied, clients) (check_string_compare-IsMap p h) (tt, tt)))

by_provider-OfMap :
    (e : Platform) (o : Option Provider) (h : Option String) (clients : JsMap JwksClient)
    → OfMap (by_provider e o h clients).0
by_provider-OfMap e none h clients = (tt, tt)
by_provider-OfMap e (some p) h clients = by_kind-OfMap e p h clients

pub process_auth_data-OfMap :
    (e : Platform) (req : Request) (path : PathDefinition) (st : Providers)
    → OfMap (process_auth_data e req path st).0
unfolding process_auth_data
process_auth_data-OfMap e req path st =
    pick-OfMap (not (given path.auth)) (ok denied, st.clients) _ (tt, tt)
      (by_provider-OfMap e (find_provider st.current (shown path.auth))
        (get req.headers "authorization") st.clients)
