-- ===== src/Proxy/Gateway/Spoof.antt =====
-- The headers that carry the identity of the sender.
use nestjs_amqp.Prelude.{String, none, some, [], ◌∷◌, ◌≡◌, ◌≢◌, subst, arith, eq_iff, ◌∙◌}
use nestjs_amqp.Prelude.Result.{ok}
use nestjs_amqp.JsMap.{JsMap, get, delete, assign}
use nestjs_amqp.JsMap.Laws.{IsMap, delete-IsMap, get-delete, get-assign-none, get-assign-some}
use nestjs_amqp.Admin.Manifest.{Json, text}
use nestjs_amqp.Proxy.Provider.{Providers}
use nestjs_amqp.Proxy.Auth.{Request, PathDefinition, ProcessedAuthData, process_auth_data}
use nestjs_amqp.Proxy.Auth.Distinct.{OfMap, process_auth_data-OfMap}
use nestjs_amqp.Proxy.Gateway.{Outside, http_headers, message_headers}

-- Whatever headers a client sends and whichever of them the route forwards, a claim of the
-- authenticated identity reaches the broker's message unchanged, under its own name; only the
-- gateway's own method and path headers stand above it.
pub message_headers-claim :
    (o : Outside) (req sent : Request) (path : PathDefinition) (st : Providers)
    (a : ProcessedAuthData) (name : String) (claim : Json)
    → (process_auth_data o.platform req path st).0 ≡ ok a
    → name ≢ "success"
    → name ≢ "X-GTW-METHOD"
    → name ≢ "X-GTW-PATH"
    → get a name ≡ some claim
    → get (message_headers o sent path a) name ≡ some claim
unfolding message_headers
message_headers-claim o req sent path st a name claim h n m p g =
    let i : IsMap a = subst OfMap h (process_auth_data-OfMap o.platform req path st) in
    let kept : get (delete a "success") name ≡ some claim =
      ground (arith, n, g, eq_iff "success" name, get-delete a "success" name) in
    let own : JsMap Json =
      ("X-GTW-METHOD", text sent.method) ∷ ("X-GTW-PATH", text path.path) ∷ [] in
    let meta : get own name ≡ none =
      ground (arith, m, p, eq_iff "X-GTW-METHOD" name, eq_iff "X-GTW-PATH" name) in
    get-assign-none (assign (http_headers o sent path) (delete a "success")) own name meta
    ∙ get-assign-some (http_headers o sent path) (delete a "success") name claim
        (delete-IsMap a "success" i) kept
