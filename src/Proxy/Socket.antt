-- ===== src/Proxy/Socket.antt =====
-- modules/proxy/services/websocket.service.ts: the session of one client, from its handshake to its
-- end. A subscription waits for the token's verification and the ACL service: it is decided in one
-- step and stored in a later one, and other steps of the client may come in between. `JSON.parse` of
-- a frame is left to the caller, which passes what it read. The error frames are left out, and so are
-- events without a subject: each configured event has one.
mod Connection
pub mod Tokens
pub mod Kept
pub mod Sessions
pub mod Delivery
mod Tests
unfoldable pub use Connection.*
use nestjs_amqp.Prelude.{
  ℕ, zero, suc, ◌*◌, String, Bool, true, false, ◌&&◌, ◌||◌, not, Option, none, some, List, [], ◌∷◌,
  ◌++◌, ◌==◌, if◌then◌else◌, find, leb, ltb, nat_eq, includes, is_empty, all,
}
use nestjs_amqp.Prelude.Result.{Result, ok, err}
use nestjs_amqp.JsMap.{JsMap, get, has, set, delete, size}
use nestjs_amqp.Admin.Manifest.{Json, null, boolean, number, text, array, object, truthy}
use nestjs_amqp.Acl.Service.{ActionArg, to_list}
use nestjs_amqp.Proxy.Provider.{Provider, Providers, JwksClient, given, find_provider}
use nestjs_amqp.Proxy.Jwt.{Claims}
use nestjs_amqp.Proxy.Auth.{
  ProcessedAuthData, Platform, Acl, ResourceContext, verify_token, map_claims, denied,
  check_actions_for_claims, has_actions, actions_of, shown,
}
use nestjs_amqp.Proxy.Gateway.Body.{field_at}

-- strict equality of two values that were read apart
abbrev pub same : Json → Json → Bool
same null null = true
same (boolean true) (boolean b) = b
same (boolean false) (boolean b) = not b
same (number m) (number n) = nat_eq m n
same (text s) (text t) = s == t
same j k = false

-- o.payload[k]
abbrev pub property : Json → String → Option Json
property (object fs) k = field_at fs k
property j k = none

abbrev pub same_option : Option Json → Json → Bool
same_option none j = false
same_option (some k) j = same k j

-- `claims?.[scopeClaim]`
abbrev pub claim_at : Option ProcessedAuthData → Option String → Option Json
claim_at none k = none
claim_at (some claims) none = none
claim_at (some claims) (some k) = get claims k

abbrev in_scope : WebSocketEvent → Option Json → Json → Bool
in_scope event none payload = false
in_scope event (some value) payload =
    given event.payload_key
    && truthy (some payload)
    && same_option (property payload (shown event.payload_key)) value

abbrev is_selected : Option (JsMap Json) → Json → Bool
is_selected none payload = true
is_selected (some wanted) payload =
    not (truthy (some payload))
    || all (λ (e : String × Json). same_option (property payload e.0) e.1) wanted

unfoldable pub matches : Subscription → Json → Bool
matches sub payload =
    (not (given sub.event.scope_claim)
      || in_scope sub.event (claim_at sub.claims sub.event.scope_claim) payload)
    && is_selected sub.selected payload

-- `exp` of a verified token is a number; 0 counts as absent
abbrev end_of : Option Json → Option ℕ
end_of (some (number n)) = if nat_eq n 0 then none else some n
end_of j = none

abbrev exp_of : Option Claims → Option ℕ
exp_of none = none
exp_of (some decoded) = end_of (get decoded "exp")

abbrev first_exp : Option ℕ → Option ℕ → Option ℕ
first_exp (some exp) new = some exp
first_exp none new = new

-- what the subscriber is told, or the claims with which it may subscribe
pub data Verdict : Type 0 where
  refused : String → Verdict
  admitted : Option ProcessedAuthData → Verdict

module _ (e : Platform) (acl : Acl) (providers : Providers) (options : SocketOptions) where
  abbrev remembered : String → Result ProcessedAuthData → Session → Session
  remembered name (err x) s = s
  remembered name (ok claims) s = record s { auth_by_provider = set s.auth_by_provider name claims }

  abbrev verified : Option Provider → String → Session → Result ProcessedAuthData × Session
  verified none name s = (ok denied, remembered name (ok denied) s)
  verified (some p) name s =
      let decoded = (verify_token e p s.token providers.clients).0 in
      let claims = map_claims e.dest_of p decoded in
      (
        claims,
        remembered name claims (record s { token_exp = first_exp s.token_exp (exp_of decoded) }),
      )

  abbrev memoized : Option ProcessedAuthData → String → Session → Result ProcessedAuthData × Session
  memoized (some claims) name s = (ok claims, s)
  memoized none name s = verified (find_provider providers.current name) name s

  unfoldable pub resolve_claims : String → Session → Result ProcessedAuthData × Session
  resolve_claims name s = memoized (get s.auth_by_provider name) name s

  -- an error of the ACL service is logged
  abbrev or_false : Result Bool → Bool
  or_false (ok b) = b
  or_false (err x) = false

  abbrev pub succeeds : Option ProcessedAuthData → Bool
  succeeds none = false
  succeeds (some claims) = truthy (get claims "success")

  abbrev acl_allows : Option Provider → Option ProcessedAuthData → WebSocketEvent → Bool
  acl_allows (some p) (some claims) event =
      succeeds (some claims)
      && or_false (check_actions_for_claims acl p claims (actions_of event.actions) none)
  acl_allows p claims event = false

  abbrev provider_of : WebSocketEvent → Option Provider
  provider_of event =
      if given event.auth then find_provider providers.current (shown event.auth) else none

  unfoldable pub authorize_event : WebSocketEvent → Option ProcessedAuthData → Verdict
  authorize_event event claims =
      if has_actions event.actions && not (acl_allows (provider_of event) claims event)
      then refused "forbidden"
      else admitted claims

  abbrev is_required : Option Bool → Bool
  is_required (some false) = false
  is_required r = true

  abbrev after_claims :
      Result ProcessedAuthData × Session → WebSocketEvent → Result Verdict × Session
  after_claims (err x, s) event = (err x, s)
  after_claims (ok claims, s) event =
      if is_required event.require_auth && not (succeeds (some claims))
      then (ok (refused "unauthorized"), s)
      else (ok (authorize_event event (some claims)), s)

  -- the first part of subscribeClient
  unfoldable pub decide : WebSocketEvent → Session → Result Verdict × Session
  decide event s =
      if given event.auth
      then after_claims (resolve_claims (shown event.auth) s) event
      else (ok (authorize_event event none), s)

  abbrev wait : Result Verdict × Session → WebSocketEvent → Option (JsMap Json) → Session
  wait (ok (admitted claims), s) event selected = record s {
    pending = s.pending ++ record { event = event; selected = selected; claims = claims } ∷ [];
  }
  wait (r, s) event selected = s

  -- the second part, on a subscription that was admitted: the limit, and the entry
  unfoldable pub subscribe : Subscription → Session → Session
  subscribe sub s =
      if (not (nat_eq options.max_subscriptions 0)
          && leb options.max_subscriptions (size s.subscriptions))
        || has s.subscriptions sub.event.name
      then s
      else record s { subscriptions = set s.subscriptions sub.event.name sub }

  abbrev pub take_at : List Subscription → ℕ → Option Subscription
  take_at [] i = none
  take_at (p ∷ ps) zero = some p
  take_at (p ∷ ps) (suc i) = take_at ps i

  abbrev pub drop_at : List Subscription → ℕ → List Subscription
  drop_at [] i = []
  drop_at (p ∷ ps) zero = ps
  drop_at (p ∷ ps) (suc i) = p ∷ drop_at ps i

  abbrev finish : Option Subscription → Session → Session
  finish none s = s
  finish (some sub) s = subscribe sub s

  -- a frame of the client, after parsing; the event is one that is configured
  pub data Frame : Type 0 where
    subscribes : WebSocketEvent → Option (JsMap Json) → Frame
    unsubscribes : String → Frame
    is_other : Frame

  unfoldable pub on_frame : Frame → Session → Session
  on_frame (subscribes event selected) s = wait (decide event s) event selected
  on_frame (unsubscribes name) s = record s { subscriptions = delete s.subscriptions name }
  on_frame is_other s = s

  unfoldable pub on_client_message : ℕ → ℕ → Frame → Session → Session
  on_client_message now bytes frame s =
      if is_expired now s.token_exp
      then handle_disconnect s
      else if ltb options.max_message_bytes bytes
      then s
      else on_frame frame s

  -- a message that went out to the client
  pub record Sent : Type 0 where
    pub subscription : Subscription
    pub payload : Json
    pub at : ℕ
    pub exp : Option ℕ

  abbrev push_to : ℕ → Bool → ℕ → Json → Option Subscription → Session → Session × List Sent
  push_to now is_open buffered payload none s = (s, [])
  push_to now is_open buffered payload (some sub) s =
      if not (matches sub payload)
      then (s, [])
      else if is_expired now s.token_exp
      then (handle_disconnect s, [])
      else if not is_open || ltb options.max_buffered_bytes buffered
      then (s, [])
      else (s, record { subscription = sub; payload = payload; at = now; exp = s.token_exp } ∷ [])

  -- an event of the broker reaches the client's subscription, if it has one
  unfoldable pub push : ℕ → Bool → ℕ → String → Json → Session → Session × List Sent
  push now is_open buffered name payload s =
      push_to now is_open buffered payload (get s.subscriptions name) s

  pub data Turn : Type 0 where
    frame : (now bytes : ℕ) → Frame → Turn
    settles : (place : ℕ) → Turn
    pushed : (now : ℕ) (is_open : Bool) (buffered : ℕ) (name : String) → Json → Turn
    heartbeat : (now : ℕ) → Turn
    closes : Turn

  unfoldable pub turn : Turn → Session → Session × List Sent
  turn (frame now bytes f) s = (on_client_message now bytes f s, [])
  turn (settles place) s =
      (finish (take_at s.pending place) (record s { pending = drop_at s.pending place }), [])
  turn (pushed now is_open buffered name payload) s = push now is_open buffered name payload s
  turn (heartbeat now) s = ((if is_expired now s.token_exp then handle_disconnect s else s), [])
  turn closes s = (handle_disconnect s, [])

  unfoldable pub run_turns : List Turn → Session → Session × List Sent
  run_turns [] s = (s, [])
  run_turns (t ∷ ts) s =
      let (s', sent) = turn t s in let (s'', more) = run_turns ts s' in (s'', sent ++ more)
