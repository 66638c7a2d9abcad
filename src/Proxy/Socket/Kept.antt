-- ===== src/Proxy/Socket/Kept.antt =====
-- A session keeps its token.
use nestjs_amqp.Prelude.{
  ℕ, String, Bool, true, false, ◌||◌, ◌&&◌, nat_eq, leb, not, Option, none, some, ◌≡◌, refl, ◌∙◌,
  if◌then◌else◌, ltb,
}
use nestjs_amqp.Prelude.Result.{Result, ok, err}
use nestjs_amqp.JsMap.{JsMap, get, has, set, size}
use nestjs_amqp.Admin.Manifest.{Json}
use nestjs_amqp.Proxy.Provider.{Provider, Providers, given}
use nestjs_amqp.Proxy.Auth.{ProcessedAuthData, Platform, Acl, shown}
use nestjs_amqp.Proxy.Socket.{
  WebSocketEvent, SocketOptions, Subscription, Session, is_expired, handle_disconnect, Verdict,
  refused, admitted, remembered, verified, memoized, after_claims, decide, resolve_claims, wait,
  Frame, subscribes, unsubscribes, is_other, on_frame, on_client_message, subscribe, finish,
  is_required, succeeds, authorize_event,
}

module _ (e : Platform) (acl : Acl) (providers : Providers) (options : SocketOptions) where
  token-remembered :
      (name : String) (r : Result ProcessedAuthData) (s : Session)
      → (remembered e acl providers options name r s).token ≡ s.token
  token-remembered name (ok claims) s = refl
  token-remembered name (err x) s = refl

  token-verified :
      (o : Option Provider) (name : String) (s : Session)
      → (verified e acl providers options o name s).1.token ≡ s.token
  token-verified none name s = refl
  token-verified (some p) name s = token-remembered name _ _

  token-memoized :
      (o : Option ProcessedAuthData) (name : String) (s : Session)
      → (memoized e acl providers options o name s).1.token ≡ s.token
  token-memoized none name s = token-verified _ name s
  token-memoized (some claims) name s = refl

  token-pick :
      (b : Bool) (x y : Result Verdict × Session) (t : Option String)
      → x.1.token ≡ t
      → y.1.token ≡ t
      → (if b then x else y).1.token ≡ t
  token-pick true x y t p q = p
  token-pick false x y t p q = q

  pub token-if :
      (b : Bool) (x y : Session) (t : Option String)
      → x.token ≡ t
      → y.token ≡ t
      → (if b then x else y).token ≡ t
  token-if true x y t p q = p
  token-if false x y t p q = q

  token-after_claims :
      (r : Result ProcessedAuthData) (s : Session) (event : WebSocketEvent)
      → (after_claims e acl providers options (r, s) event).1.token ≡ s.token
  token-after_claims (err x) s event = refl
  token-after_claims (ok claims) s event =
      token-pick
        (is_required e acl providers options event.require_auth
          && not (succeeds e acl providers options (some claims)))
        (ok (refused "unauthorized"), s)
        (ok (authorize_event e acl providers options event (some claims)), s) s.token refl refl

  token-decide :
      (event : WebSocketEvent) (s : Session)
      → (decide e acl providers options event s).1.token ≡ s.token
  unfolding decide resolve_claims
  token-decide event s =
      let name = shown event.auth in
      let r = memoized e acl providers options (get s.auth_by_provider name) name s in
      token-pick (given event.auth) (after_claims e acl providers options r event)
        (ok (authorize_event e acl providers options event none), s) s.token
        (token-after_claims r.0 r.1 event ∙ token-memoized (get s.auth_by_provider name) name s)
        refl

  token-wait :
      (r : Result Verdict) (s : Session) (event : WebSocketEvent) (selected : Option (JsMap Json))
      → (wait e acl providers options (r, s) event selected).token ≡ s.token
  token-wait (err x) s event selected = refl
  token-wait (ok (refused reason)) s event selected = refl
  token-wait (ok (admitted claims)) s event selected = refl

  token-on_frame :
      (f : Frame e acl providers options) (s : Session)
      → (on_frame e acl providers options f s).token ≡ s.token
  unfolding on_frame
  token-on_frame (subscribes event selected) s =
      let r = decide e acl providers options event s in
      token-wait r.0 r.1 event selected ∙ token-decide event s
  token-on_frame (unsubscribes name) s = refl
  token-on_frame is_other s = refl

  pub token-on_client_message :
      (now bytes : ℕ) (f : Frame e acl providers options) (s : Session)
      → (on_client_message e acl providers options now bytes f s).token ≡ s.token
  unfolding on_client_message handle_disconnect
  token-on_client_message now bytes f s =
      token-if (is_expired now s.token_exp) (handle_disconnect s)
        (if ltb options.max_message_bytes bytes then s else on_frame e acl providers options f s)
        s.token refl
        (token-if (ltb options.max_message_bytes bytes) s (on_frame e acl providers options f s)
          s.token refl (token-on_frame f s))

  pub token-finish :
      (o : Option Subscription) (s : Session) → (finish e acl providers options o s).token ≡ s.token
  unfolding subscribe
  token-finish none s = refl
  token-finish (some sub) s =
      token-if
        ((not (nat_eq options.max_subscriptions 0)
            && leb options.max_subscriptions (size s.subscriptions))
          || has s.subscriptions sub.event.name)
        s (record s { subscriptions = set s.subscriptions sub.event.name sub }) s.token refl refl
