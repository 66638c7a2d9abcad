-- ===== src/Proxy/Socket/Connection.antt =====
-- services/websocket.service.ts: the state of a session, its opening and its token.
use nestjs_amqp.Prelude.{
  ℕ, ◌*◌, String, Bool, true, false, ◌&&◌, ◌||◌, not, Option, none, some, List, [], ◌∷◌, ◌==◌,
  if◌then◌else◌, leb, ltb, nat_eq, includes, is_empty,
}
use nestjs_amqp.JsMap.{JsMap}
use nestjs_amqp.Admin.Manifest.{Json}
use nestjs_amqp.Acl.Service.{ActionArg}
use nestjs_amqp.Proxy.Auth.{ProcessedAuthData}

-- WebSocketEvent, of type `ws`
pub record WebSocketEvent : Type 0 where
  pub name : String
  pub auth : Option String
  pub require_auth : Option Bool
  pub actions : Option ActionArg
  pub scope_claim : Option String
  pub payload_key : Option String

-- WebSocketGatewayOptions; a limit of 0 is none
pub record SocketOptions : Type 0 where
  pub max_connections : ℕ
  pub max_subscriptions : ℕ
  pub allowed_origins : List String
  pub max_message_bytes : ℕ
  pub max_buffered_bytes : ℕ

-- a subscription with the values that its filter has captured
pub record Subscription : Type 0 where
  pub event : WebSocketEvent
  pub selected : Option (JsMap Json)
  pub claims : Option ProcessedAuthData

pub record Session : Type 0 where
  pub connected : Bool
  pub token : Option String
  pub token_exp : Option ℕ
  pub auth_by_provider : JsMap ProcessedAuthData
  pub subscriptions : JsMap Subscription
  pub pending : List Subscription

abbrev pub opened : Option String → Session
opened token = record {
  connected = true;
  token = token;
  token_exp = none;
  auth_by_provider = [];
  subscriptions = [];
  pending = [];
}

-- why a handshake is refused
pub data Handshake : Type 0 where
  origin_not_allowed : Handshake
  server_busy : Handshake
  accepted_with : Session → Handshake

abbrev origin_in : List String → Option String → Bool
origin_in origins none = false
origin_in origins (some origin) = not (origin == "") && includes origins origin

-- `clients` counts the sockets, the new one included
unfoldable pub handle_connection : SocketOptions → Option String → ℕ → Option String → Handshake
handle_connection options origin clients token =
    if not (is_empty options.allowed_origins) && not (origin_in options.allowed_origins origin)
    then origin_not_allowed
    else if not (nat_eq options.max_connections 0) && ltb options.max_connections clients
    then server_busy
    else accepted_with (opened token)

abbrev is_bearer : (String → String) → String → Bool
is_bearer lower p = lower p == "bearer" || lower p == "jwt"

abbrev last_of : List String → Option String
last_of [] = none
last_of (p ∷ []) = some p
last_of (p ∷ q ∷ ps) = last_of (q ∷ ps)

abbrev first_of : List String → Option String
first_of [] = none
first_of (p ∷ ps) = some p

abbrev after_bearer : (String → String) → List String → List String → Option String
after_bearer lower [] parts = last_of parts
after_bearer lower (p ∷ ps) parts =
    let later = after_bearer lower ps parts in if is_bearer lower p then first_of ps else later

-- extractToken on the trimmed parts of the header that are not empty
unfoldable pub extract_token : (String → String) → List String → Option String
extract_token lower [] = none
extract_token lower (p ∷ []) = some p
extract_token lower (p ∷ q ∷ ps) = after_bearer lower (p ∷ q ∷ ps) (p ∷ q ∷ ps)

unfoldable pub is_expired : ℕ → Option ℕ → Bool
is_expired now none = false
is_expired now (some exp) = leb (exp * 1000) now

unfoldable pub handle_disconnect : Session → Session
handle_disconnect s = record s { connected = false; subscriptions = [] }
