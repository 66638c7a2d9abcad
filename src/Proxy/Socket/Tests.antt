-- ===== src/Proxy/Socket/Tests.antt =====
-- The session of a client at a concrete input: a signed token, an action and a scope.
use nestjs_amqp.Prelude.{
  ◌≤◌, String, true, none, some, List, [], ◌∷◌, ◌≡◌, ◌≢◌, refl, sym, ◌∙◌, map, All, split,
}
use nestjs_amqp.Prelude.Result.{ok}
use nestjs_amqp.JsMap.{size}
use nestjs_amqp.Admin.Manifest.{Json, number, text, object, field, no_fields}
use nestjs_amqp.Acl.Service.{one, to_list}
use nestjs_amqp.Proxy.Provider.{Provider, Providers, find_provider}
use nestjs_amqp.Proxy.Jwt.{
  Claims, verify_with, verify_token_secret, resolve_algorithms, safe_algorithms, is_none_algorithm,
  is_symmetric,
}
use nestjs_amqp.Proxy.Auth.{
  Platform, Acl, has_actions, verify_token, map_claims, check_actions_for_claims, uid_of,
}
use nestjs_amqp.Proxy.Socket.{
  WebSocketEvent, SocketOptions, opened, Sent, Turn, frame, subscribes, settles, pushed, turn,
  run_turns, on_client_message, on_frame, decide, resolve_claims, authorize_event, subscribe, push,
  matches, is_expired, handle_disconnect,
}
use nestjs_amqp.Proxy.Socket.Tokens.{ReadsPayload}
use nestjs_amqp.Proxy.Socket.Delivery.{IsDue, run_turns-IsDue}

-- the payload of the token ends at second 100
abbrev payload : Claims
payload = ("sub", text "ann") ∷ ("exp", number 100) ∷ []

abbrev platform : Platform
platform = record {
  verify = λ token key options. some payload;
  dest_of = λ s. s;
  decode_base64 = λ s. s;
}

abbrev issuer : Provider
issuer = record {
  name = "issuer";
  kind = "jwt";
  issuer = none;
  audience = none;
  algorithms = some ("HS256" ∷ []);
  secret = some "s3cret";
  jwks_uri = none;
  https_allow_unauthorized = none;
  client_secret = none;
  client_id = none;
  uid_claim = some "USERID";
  jwt_map = some ("sub:USERID" ∷ []);
  header_prefix = some "X-";
}

abbrev providers : Providers
providers = record { current = issuer ∷ []; clients = [] }

abbrev acl : Acl
acl = some (λ uid ctx actions. ok true)

abbrev limits : SocketOptions
limits = record {
  max_connections = 0;
  max_subscriptions = 1;
  allowed_origins = [];
  max_message_bytes = 16384;
  max_buffered_bytes = 1048576;
}

abbrev news : WebSocketEvent
news = record {
  name = "news";
  auth = some "issuer";
  require_auth = none;
  actions = some (one "news-read");
  scope_claim = some "X-USERID";
  payload_key = some "user";
}

abbrev for_user : String → Json
for_user name = object (field "user" (text name) no_fields)

-- a message for the user, one for another user, and one after the end of the token
abbrev turns : List (Turn platform acl providers limits)
turns =
    frame 1 20 (subscribes news none)
    ∷ settles 0
    ∷ pushed 99000 true 0 "news" (for_user "ann")
    ∷ pushed 99001 true 0 "news" (for_user "bob")
    ∷ pushed 100000 true 0 "news" (for_user "ann")
    ∷ []

one_sent :
    map
      (λ (m : Sent platform acl providers limits). m.at)
      (run_turns platform acl providers limits turns (opened (some "token"))).1
    ≡ 99000 ∷ []
unfolding run_turns turn on_client_message on_frame decide resolve_claims authorize_event
    has_actions subscribe push matches is_expired handle_disconnect verify_token verify_token_secret
    verify_with resolve_algorithms safe_algorithms is_none_algorithm is_symmetric map_claims split
    find_provider check_actions_for_claims uid_of to_list
one_sent = refl

reads_payload : ReadsPayload platform acl providers limits
reads_payload token k k' o o' c c' h h' =
    let a : payload ≡ c = cc in let b : payload ≡ c' = cc in sym a ∙ b

run_turns-IsDue_example :
    (limits.max_subscriptions ≢ 0
      → size (run_turns platform acl providers limits turns (opened (some "token"))).0.subscriptions
        ≤ limits.max_subscriptions)
    × All
        (IsDue platform acl providers limits (some "token"))
        (run_turns platform acl providers limits turns (opened (some "token"))).1
run_turns-IsDue_example =
    run_turns-IsDue platform acl providers limits turns (some "token") reads_payload
