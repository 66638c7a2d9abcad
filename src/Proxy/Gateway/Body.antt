-- ===== src/Proxy/Gateway/Body.antt =====
-- The data that the gateway sends on: which parts of a request it joins, in which order, and the
-- encoding of uploaded files (the data part of registerPath in http-handler.service.ts). A Buffer
-- stands for the text of its bytes.
use nestjs_amqp.Prelude.{String, Option, none, some, [], ◌==◌, if◌then◌else◌}
use nestjs_amqp.JsMap.{JsMap, get, set, assign}
use nestjs_amqp.Admin.Manifest.{
  Json, array, object, Items, no_items, item, Fields, no_fields, field, truthy,
}
use nestjs_amqp.Proxy.Auth.{Request, PathDefinition}

abbrev or_empty : Option (JsMap Json) → JsMap Json
or_empty none = []
or_empty (some b) = b

unfoldable pub joined_data : Request → String → JsMap Json
joined_data req source =
    if source == "body"
    then assign req.params (or_empty req.body)
    else if source == "query"
    then assign req.params req.query
    else if source == "params"
    then req.params
    else if source == "body-query"
    then assign (assign req.params req.query) (or_empty req.body)
    else assign (assign req.params (or_empty req.body)) req.query

abbrev with_files : Option Json → JsMap Json → JsMap Json
with_files none payload = payload
with_files (some files) payload =
    if truthy (some files) then set payload "$files" files else payload

-- with $raw, $files, and the route parameters once more
unfoldable pub full_data : Request → PathDefinition → JsMap Json
unfolding joined_data
full_data req path =
    let payload = joined_data req path.data_source in
    let raw = if path.parse_raw then set payload "$raw" req.raw_body else payload in
    assign (with_files req.files raw) req.params

-- o[k] and o[k] = v on a JSON object
abbrev pub field_at : Fields → String → Option Json
field_at no_fields k = none
field_at (field j v fs) k = if j == k then some v else field_at fs k

abbrev set_field : Fields → String → Json → Fields
set_field no_fields k w = field k w no_fields
set_field (field j v fs) k w =
    let rest = set_field fs k w in if j == k then field j w fs else field j v rest

module _ (to_binary : Json → Option Json) where
  abbrev encode_buffer : Option Json → Fields → Option Json
  encode_buffer none fs = none
  encode_buffer (some b) fs = elim (to_binary b) [
    | none ↦ none
    | some t ↦ some (object (set_field fs "buffer" t))
  ]

  -- one round of the loop over $files
  abbrev encode_file : Json → Option Json
  encode_file (object fs) = encode_buffer (field_at fs "buffer") fs
  encode_file j = none

  abbrev encode_items : Items → Option Items
  encode_items no_items = some no_items
  encode_items (item j js) = elim (encode_file j) [
    | none ↦ none
    | some j' ↦ elim (encode_items js) [ none ↦ none | some js' ↦ some (item j' js') ]
  ]

  unfoldable pub encode_files : Json → Option Json
  encode_files (array js) = elim (encode_items js) [ none ↦ none | some js' ↦ some (array js') ]
  encode_files j = none

  abbrev pub encode_found : Option Json → JsMap Json → Option (JsMap Json)
  encode_found none payload = some payload
  encode_found (some files) payload =
      if truthy (some files)
      then (elim (encode_files files) [ none ↦ none | some fs ↦ some (set payload "$files" fs) ])
      else some payload

  -- none if encoding the files throws
  unfoldable pub data_of : Request → PathDefinition → Option (JsMap Json)
  unfolding full_data
  data_of req path = encode_found (get (full_data req path) "$files") (full_data req path)
