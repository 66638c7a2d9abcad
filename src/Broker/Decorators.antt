-- ===== src/Broker/Decorators.antt =====
-- modules/broker/config/decorator-paths.ts and modules/broker/services/metadata-scanner.service.ts:
-- the routes that decorated methods declare, and who protects them. Reflection is left out: the
-- entries that the decorators have recorded are arguments.
pub mod Pairing
use nestjs_amqp.Prelude.{
  ℕ, String, Bool, true, false, ◌&&◌, ◌||◌, not, Option, none, some, List, [], ◌∷◌, ◌++◌, ◌==◌, map,
  if◌then◌else◌, template, find, select, includes, is_empty, length, ltb,
}
use nestjs_amqp.Acl.Service.{ActionArg, many}
use nestjs_amqp.Proxy.Provider.{given}

-- a @BrokerAuth of a method
pub record AuthEntry : Type 0 where
  pub auth_name : String
  pub allow_anonymous : Option Bool
  pub actions : Option ActionArg
  pub http_name : Option String

-- a @BrokerHTTP of a method
pub record HttpEntry : Type 0 where
  pub method : String
  pub path : String
  pub data_source : Option String
  pub name : Option String
  pub mode : Option String
  pub action : Option String
  pub auth : Option String
  pub allow_anonymous : Option Bool
  pub actions : Option ActionArg

-- x.httpName === name, for a name that is there
abbrev pub is_named : String → AuthEntry → Bool
is_named name a = elim a.http_name [ none ↦ false | some n ↦ n == name ]

abbrev or_first : Option AuthEntry → List AuthEntry → Option AuthEntry
or_first (some a) as_ = some a
or_first none [] = none
or_first none (a ∷ as_) = some a

abbrev pub by_name : Option String → List AuthEntry → Option AuthEntry
by_name none auths = none
by_name (some name) auths = if name == "" then none else find (is_named name) auths

-- the @BrokerAuth of a route
unfoldable pub paired_auth : Bool → HttpEntry → List AuthEntry → Option AuthEntry
paired_auth multi_http h auths =
    if multi_http
    then by_name h.name auths
    else or_first (find (λ (a : AuthEntry). not (given a.http_name)) auths) auths

abbrev pub protect : Option AuthEntry → HttpEntry → HttpEntry
protect none h = h
protect (some a) h = record h {
  auth = some a.auth_name;
  allow_anonymous = a.allow_anonymous;
  actions = a.actions;
}

-- the names of the routes that are not empty
abbrev pub name_onto : Option String → List String → List String
name_onto none names = names
name_onto (some n) names = if n == "" then names else n ∷ names

abbrev pub names_of : List HttpEntry → List String
names_of [] = []
names_of (h ∷ hs) = name_onto h.name (names_of hs)

-- an entry that gets a warning: it names no route
unfoldable pub is_unpaired : List String → AuthEntry → Bool
is_unpaired names a = elim a.http_name [ none ↦ true | some n ↦ n == "" || not (includes names n) ]

-- the routes with their auth, and the entries that are warned of
unfoldable pub pair_auth_to_routes :
    List HttpEntry → List AuthEntry → List HttpEntry × List AuthEntry
unfolding paired_auth is_unpaired
pair_auth_to_routes https auths =
    if is_empty https || is_empty auths
    then (https, [])
    else let multi_http = ltb 1 (length https) in
      (
        map (λ h. protect (paired_auth multi_http h auths) h) https,
        if multi_http then select (is_unpaired (names_of https)) auths else [],
      )

-- the definition of a route
pub record RouteDefinition : Type 0 where
  pub name : String
  pub method : String
  pub path : String
  pub data_source : String
  pub topic : String
  pub action : String
  pub mode : String
  pub auth : Option String
  pub allow_anonymous : Option Bool
  pub actions : ActionArg

-- what is known of an action: its type and its routes
pub record ActionMeta : Type 0 where
  pub topic : String
  pub action : String
  pub kind : Option String
  pub http : List HttpEntry

abbrev or_text : Option String → String → String
or_text none d = d
or_text (some s) d = s

abbrev mode_of : Option String → String
mode_of none = "rpc"
mode_of (some k) = if k == "event" then "event" else "rpc"

abbrev or_no_actions : Option ActionArg → ActionArg
or_no_actions none = many []
or_no_actions (some a) = a

unfoldable pub route_definition : ActionMeta → HttpEntry → RouteDefinition
route_definition entry h = record {
  name =
      or_text h.name
        (template (entry.topic ∷ ":" ∷ entry.action ∷ ":" ∷ h.method ∷ ":" ∷ h.path ∷ []));
  method = h.method;
  path = h.path;
  data_source = or_text h.data_source "body";
  topic = entry.topic;
  action = entry.action;
  mode = or_text h.mode (mode_of entry.kind);
  auth = h.auth;
  allow_anonymous = h.allow_anonymous;
  actions = or_no_actions h.actions;
}

unfoldable pub build_path_definitions : List ActionMeta → List RouteDefinition
unfolding route_definition
build_path_definitions [] = []
build_path_definitions (entry ∷ entries) =
    map (route_definition entry) entry.http ++ build_path_definitions entries

-- pairToAction on the entries of one method, whose actions are given
unfoldable pub pair_to_action : List HttpEntry → String → List String → List HttpEntry
pair_to_action https action actions =
    select
      (λ (h : HttpEntry). elim h.action [
        | none ↦ not (ltb 1 (length actions))
        | some a ↦ includes actions a && a == action
      ])
      https

-- what a parameter list has behind '=' is a default value
unfoldable pub remove_defaults : List String → List String
remove_defaults [] = []
remove_defaults (p ∷ []) = if p == "=" then [] else p ∷ []
remove_defaults (p ∷ q ∷ ps) =
    let dropped = remove_defaults ps in
    let kept = remove_defaults (q ∷ ps) in if p == "=" then dropped else p ∷ kept
