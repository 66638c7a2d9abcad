-- ===== src/Proxy/Tests.antt =====
-- The theorems on the gateway at concrete inputs.
use nestjs_amqp.Prelude.{
  ◌≤◌, String, true, false, none, some, List, [], ◌∷◌, ◌≡◌, ◌≢◌, ◌↔◌, refl, inl, inr, sym, subst,
  In, ◌==◌, eq_iff,
}
use nestjs_amqp.Prelude.Result.{ok}
use nestjs_amqp.JsMap.{get}
use nestjs_amqp.Admin.Manifest.{Json, number, text, boolean}
use nestjs_amqp.Proxy.Provider.{Provider, Providers, find_provider}
use nestjs_amqp.Proxy.Auth.{
  Request, PathDefinition, process_auth_data, check_string_compare, check_actions, has_actions,
}
use nestjs_amqp.Proxy.Gateway.{
  Outside, Call, handle, dispatch, authorize, forward_call, call_of, rejects, message_headers,
  http_headers,
}
use nestjs_amqp.Proxy.Gateway.Body.{data_of, full_data, joined_data, encode_files}
use nestjs_amqp.Proxy.Gateway.Access.{calls_in, IsCleared, handle-IsCleared}
use nestjs_amqp.Proxy.Gateway.Answer.{IsBare, answers_in, handle-IsAnswered, handle-rejects}
use nestjs_amqp.Proxy.Gateway.Spoof.{message_headers-claim}
use nestjs_amqp.Proxy.Capacity.{
  no_flight, arrives, finishes, closes, run_moves, is_busy, no_reload, control, run_signals,
  pass_over,
}
use nestjs_amqp.Proxy.Capacity.Bounds.{open_requests, run_moves-bounds}
use nestjs_amqp.Proxy.Capacity.Reloads.{run_signals-served}
use nestjs_amqp.Prelude.{◌<◌, false}
use nestjs_amqp.Prelude.{◌⊎◌, inl}
use nestjs_amqp.Proxy.Gateway.{nothing, conclude, after_request}
use nestjs_amqp.Proxy.Capacity.{move, arrive, is_capped}
use nestjs_amqp.Proxy.Socket.{closes}

apart : (s t : String) → (s == t) ≡ false → s ≢ t
apart s t h e = let q = (eq_iff s t).1 e in cc

-- a provider that compares the header with a text
abbrev api_key : Provider
api_key = record {
  name = "key";
  kind = "str-compare";
  issuer = none;
  audience = none;
  algorithms = none;
  secret = some "s3cret";
  jwks_uri = none;
  https_allow_unauthorized = none;
  client_secret = none;
  client_id = none;
  uid_claim = none;
  jwt_map = none;
  header_prefix = some "X-";
}

abbrev providers : Providers
providers = record { current = api_key ∷ []; clients = [] }

abbrev route : PathDefinition
route = record {
  name = none;
  method = "POST";
  path = "/orders";
  parse_raw = false;
  topic = "orders";
  action = "create";
  success_status_code = none;
  data_source = "params";
  mode = "event";
  auth = some "key";
  allow_anonymous = false;
  actions = none;
  timeout = none;
  binary = false;
  headers = [];
  forward_headers = [];
  redirect = none;
}

abbrev public_route : PathDefinition
public_route = record route { auth = none; allow_anonymous = true; data_source = "body" }

abbrev signed : Request
signed = record {
  method = "POST";
  headers = ("authorization", "s3cret") ∷ [];
  params = ("id", text "7") ∷ [];
  query = [];
  body = none;
  raw_body = text "";
  files = none;
}

abbrev with_own_files : Request
with_own_files = record signed { body = some (("$files", number 5) ∷ []) }

abbrev calm : Outside
calm = record {
  platform = record {
    verify = λ token key options. none;
    dest_of = λ s. s;
    decode_base64 = λ s. s;
  };
  acl = none;
  parse_multipart = λ req. inr req;
  publish_message = λ call. none;
  request_data = λ call. inr none;
  accepts = λ r. none;
  to_binary = λ j. some j;
  mentions_json = λ j. true;
  header_name = λ s. s;
  production = true;
  header_prefix = none;
}

abbrev claims : List (String × Json)
claims = ("success", boolean true) ∷ ("X-TOKEN", text "s3cret") ∷ []

signed_accepted : (process_auth_data calm.platform signed route providers).0 ≡ ok claims
unfolding process_auth_data find_provider check_string_compare
signed_accepted = refl

abbrev signed_call : Call
signed_call = record {
  topic = "orders";
  action = "create";
  payload = ("id", text "7") ∷ [];
  headers =
      ("X-TOKEN", text "s3cret")
      ∷ ("X-GTW-METHOD", text "POST")
      ∷ ("X-GTW-PATH", text "/orders")
      ∷ [];
  timeout = none;
}

signed_calls : calls_in (handle calm signed route providers).0.effects ≡ signed_call ∷ []
unfolding handle process_auth_data find_provider check_string_compare authorize check_actions
    has_actions dispatch data_of full_data joined_data forward_call call_of message_headers
    http_headers
signed_calls = refl

handle-IsCleared_example : IsCleared calm signed_call signed route providers
handle-IsCleared_example =
    handle-IsCleared calm signed route providers signed_call
      (subst (In signed_call) (sym signed_calls) (inl refl))

signed-some : data_of calm.to_binary signed route ≡ some (("id", text "7") ∷ [])
unfolding data_of full_data joined_data
signed-some = refl

signed_data :
    (req : Request)
    → calm.parse_multipart signed ≡ inr req
    → data_of calm.to_binary req route ≢ none
signed_data req h n =
    let e : signed ≡ req = cc in
    let n' = subst (λ r. data_of calm.to_binary r route ≡ none) (sym e) n in
    let s = signed-some in cc

handle-IsAnswered_example :
    (answers_in (handle calm signed route providers).0.effects ≡ 1)
    × (((handle calm signed route providers).0.rejected ≡ false)
        ⊎ IsBare calm (handle calm signed route providers).0.effects)
handle-IsAnswered_example =
    handle-IsAnswered calm (λ b. refl) signed route providers claims signed_accepted signed_data

-- a broker that fails with nothing: the client is answered, and the log line throws
abbrev silent : Outside
silent = record calm { publish_message = λ c. some nothing; request_data = λ c. inl nothing }

silent_failure : (conclude silent (after_request silent (inl nothing) route)).rejected ≡ true
silent_failure = refl

own_files : get (full_data with_own_files public_route) "$files" ≡ some (number 5)
unfolding full_data joined_data
own_files = refl

five_refused : encode_files calm.to_binary (number 5) ≡ none
unfolding encode_files
five_refused = refl

handle-rejects_example : (handle calm with_own_files public_route providers).0 ≡ rejects
handle-rejects_example =
    handle-rejects calm with_own_files with_own_files public_route providers (number 5) refl refl
      own_files refl five_refused

message_headers-claim_example :
    get (message_headers calm with_own_files route claims) "X-TOKEN" ≡ some (text "s3cret")
message_headers-claim_example =
    message_headers-claim calm signed with_own_files route providers claims "X-TOKEN"
      (text "s3cret") signed_accepted (apart "X-TOKEN" "success" refl)
      (apart "X-TOKEN" "X-GTW-METHOD" refl) (apart "X-TOKEN" "X-GTW-PATH" refl) refl

-- without a cap every request is admitted, and none is counted
uncapped :
    (is_busy 0 (run_moves 0 (arrives ∷ arrives ∷ []) no_flight) ≡ false)
    × ((run_moves 0 (arrives ∷ arrives ∷ []) no_flight).in_flight ≡ 0)
unfolding is_busy run_moves move arrive is_capped
uncapped = (refl, refl)

run_moves-bounds_example :
    ((run_moves 1 (arrives ∷ arrives ∷ finishes 0 ∷ closes 0 ∷ []) no_flight).in_flight
      ≡ open_requests
          (run_moves 1 (arrives ∷ arrives ∷ finishes 0 ∷ closes 0 ∷ []) no_flight).released)
    × ((run_moves 1 (arrives ∷ arrives ∷ finishes 0 ∷ closes 0 ∷ []) no_flight).in_flight ≤ 1)
    × ((is_busy 1 (run_moves 1 (arrives ∷ arrives ∷ finishes 0 ∷ closes 0 ∷ []) no_flight) ≡ true)
        ↔ ((0 < 1)
            × (open_requests
                  (run_moves 1 (arrives ∷ arrives ∷ finishes 0 ∷ closes 0 ∷ []) no_flight).released
                ≡ 1)))
run_moves-bounds_example = run_moves-bounds 1 (arrives ∷ arrives ∷ finishes 0 ∷ closes 0 ∷ [])

run_signals-served_example :
    ((pass_over
        (pass_over (run_signals (control none ∷ control none ∷ []) no_reload))).reload_in_flight
      ≡ false)
    × ((pass_over (pass_over (run_signals (control none ∷ control none ∷ []) no_reload))).served
        ≡ (run_signals (control none ∷ control none ∷ []) no_reload).signals)
    × ((run_signals (control none ∷ control none ∷ []) no_reload).passes
        ≤ (run_signals (control none ∷ control none ∷ []) no_reload).signals)
run_signals-served_example = run_signals-served (control none ∷ control none ∷ [])
