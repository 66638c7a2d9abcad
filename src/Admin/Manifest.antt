-- ===== src/Admin/Manifest.antt =====
-- modules/gateway-admin/util/route-manifest.ts: identity and content of a route.
-- `JSON.stringify` of a text and `toUpperCase` are the platform's: parameters.
-- A route is a JSON object; a field that is absent is undefined.
use nestjs_amqp.Prelude.{
  ℕ, String, Bool, true, false, ◌&&◌, ◌||◌, not, Option, none, some, List, [], ◌∷◌, ◌==◌,
  if◌then◌else◌, map, template, any, select, join, nat_eq, ◌++◌, decimal,
}
use nestjs_amqp.Prelude.Sort.{sort_by, string_le}
use nestjs_amqp.JsMap.{JsMap, get, set, delete}

mutual
  pub data Json : Type 0 where
    null : Json
    boolean : Bool → Json
    number : ℕ → Json
    text : String → Json
    array : Items → Json
    object : Fields → Json

  pub data Items : Type 0 where
    no_items : Items
    item : Json → Items → Items

  pub data Fields : Type 0 where
    no_fields : Fields
    field : String → Json → Fields → Fields

abbrev pub items_of : Items → List Json
items_of no_items = []
items_of (item j js) = j ∷ items_of js

abbrev pub Route : Type 0
Route = JsMap Json

-- `v ?? d`
abbrev pub nullish : Option Json → Json → Json
nullish none d = d
nullish (some null) d = d
nullish (some j) d = j

abbrev text_of : Option Json → String
text_of (some (text s)) = s
text_of j = ""

abbrev pub truthy : Option Json → Bool
truthy none = false
truthy (some null) = false
truthy (some (boolean b)) = b
truthy (some (number n)) = not (nat_eq n 0)
truthy (some (text s)) = not (s == "")
truthy (some (array js)) = true
truthy (some (object fs)) = true

abbrev is_text : Option Json → String → Bool
is_text (some (text s)) t = s == t
is_text j t = false

unfoldable pub is_valid_route : Route → Bool
is_valid_route r =
    truthy (get r "method")
    && truthy (get r "path")
    && truthy (get r "topic")
    && truthy (get r "action")
    && (is_text (get r "mode") "rpc" || is_text (get r "mode") "event")

-- the fields of canonicalRoute with what stands for an absent one
abbrev pub route_fields : List (String × Json)
route_fields =
    ("name", null)
    ∷ ("method", null)
    ∷ ("path", null)
    ∷ ("dataSource", null)
    ∷ ("topic", null)
    ∷ ("action", null)
    ∷ ("mode", null)
    ∷ ("auth", null)
    ∷ ("allowAnonymous", null)
    ∷ ("actions", array no_items)
    ∷ ("successStatusCode", null)
    ∷ ("timeout", null)
    ∷ ("parseRaw", null)
    ∷ ("binary", null)
    ∷ ("redirect", null)
    ∷ ("headers", object no_fields)
    ∷ ("forwardHeaders", object no_fields)
    ∷ []

abbrev fields_of : List (String × Json) → Fields
fields_of [] = no_fields
fields_of ((k, j) ∷ fs) = field k j (fields_of fs)

unfoldable pub canonical_route : Route → Json
canonical_route r =
    object (fields_of (map (λ (f : String × Json). (f.0, nullish (get r f.0) f.1)) route_fields))

-- merged[f] = existing[f]
abbrev take_over : Route → Route → String → Route
take_over merged existing f = elim (get existing f) [
  | none ↦ delete merged f
  | some j ↦ set merged f j
]

abbrev override_each : Route → Route → List String → Route
override_each merged existing [] = merged
override_each merged existing (f ∷ fs) =
    override_each (if f == "enabled" then merged else take_over merged existing f) existing fs

unfoldable pub apply_user_overrides : Route → Option Route → List String → Route
apply_user_overrides incoming none overrides = incoming
apply_user_overrides incoming (some existing) overrides = override_each incoming existing overrides

pub record RouteFieldChange : Type 0 where
  pub field_name : String
  pub added : List Json
  pub removed : List Json

abbrev absent_or : Option Json → List Json
absent_or none = []
absent_or (some null) = []
absent_or (some j) = j ∷ []

abbrev is_array : Option Json → Bool
is_array (some (array js)) = true
is_array j = false

abbrev array_items : Option Json → List Json
array_items (some (array js)) = items_of js
array_items j = []

module _ (quote : String → String) (upper : String → String) where
  unfoldable pub route_key_of : Route → String
  route_key_of r = template (upper (text_of (get r "method")) ∷ " " ∷ text_of (get r "path") ∷ [])

  abbrev show_boolean : Bool → String
  show_boolean true = "true"
  show_boolean false = "false"

  abbrev show_entries : List (String × String) → String
  show_entries es = join "," (
      map (λ (e : String × String). template (quote e.0 ∷ ":" ∷ e.1 ∷ []))
        (sort_by (λ (a b : String × String). string_le a.0 b.0) es))

  unfoldable mutual
    pub stable_stringify : Json → String
    stable_stringify null = "null"
    stable_stringify (boolean b) = show_boolean b
    stable_stringify (number n) = decimal n
    stable_stringify (text s) = quote s
    stable_stringify (array js) = template ("[" ∷ join "," (stringify_items js) ∷ "]" ∷ [])
    stable_stringify (object fs) = template ("{" ∷ show_entries (stringify_fields fs) ∷ "}" ∷ [])

    pub stringify_items : Items → List String
    stringify_items no_items = []
    stringify_items (item j js) = stable_stringify j ∷ stringify_items js

    pub stringify_fields : Fields → List (String × String)
    stringify_fields no_fields = []
    stringify_fields (field k j fs) = (k, stable_stringify j) ∷ stringify_fields fs

  unfoldable pub route_content : Route → String
  route_content r = stable_stringify (canonical_route r)

  abbrev not_among : List Json → Json → Bool
  not_among js j = not (any (λ k. stable_stringify k == stable_stringify j) js)

  unfoldable pub diff_field : String → Option Json → Option Json → List RouteFieldChange
  diff_field f b a =
      if stable_stringify (nullish b null) == stable_stringify (nullish a null)
      then []
      else if is_array b || is_array a
      then record {
        field_name = f;
        added = select (not_among (array_items b)) (array_items a);
        removed = select (not_among (array_items a)) (array_items b);
      }
        ∷ []
      else record { field_name = f; added = absent_or a; removed = absent_or b } ∷ []

  abbrev diff_each : List (String × Json) → Route → Route → List RouteFieldChange
  diff_each [] before after = []
  diff_each ((f, d) ∷ fs) before after =
      diff_field f (get before f) (get after f) ++ diff_each fs before after

  unfoldable pub diff_route_fields : Route → Route → List RouteFieldChange
  diff_route_fields before after = diff_each route_fields before after
