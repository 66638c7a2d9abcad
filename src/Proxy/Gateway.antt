-- ===== src/Proxy/Gateway.antt =====
-- modules/proxy/services/http-handler.service.ts: what a route does with a request.
-- The multipart parser, the message broker, Express and the platform are the fields of `Outside`.
pub mod Body
pub mod Access
pub mod Answer
pub mod Spoof
use nestjs_amqp.Prelude.{
  ℕ, String, Bool, true, false, ◌&&◌, ◌||◌, not, Option, none, some, List, [], ◌∷◌, ◌++◌, ◌⊎◌, inl,
  inr, ◌==◌, if◌then◌else◌, template, find, nat_eq,
}
use nestjs_amqp.Prelude.Result.{AppError, Result, ok, err}
use nestjs_amqp.JsMap.{JsMap, get, has, set, delete, assign}
use nestjs_amqp.Admin.Manifest.{Json, null, text, truthy}
use nestjs_amqp.Proxy.Provider.{Providers, JwksClient, given}
use nestjs_amqp.Proxy.Auth.{
  Request, PathDefinition, ProcessedAuthData, Platform, Acl, process_auth_data, check_actions,
  extract_resource_context,
}
use nestjs_amqp.Proxy.Gateway.Body.{data_of}

-- what a failing call throws: an object, a text, or nothing
pub data Failure : Type 0 where
  thrown :
      (name : Option String) (message : Option String) (details : Option Json)
      (stack : Option String)
      → Failure
  thrown_text : String → Failure
  nothing : Failure

pub record ErrorBody : Type 0 where
  pub status_code : ℕ
  pub code : String
  pub message : String
  pub details : Option Json

-- ERROR_STATUS, where a name that is not there gives 500
unfoldable pub error_status : String → ℕ
error_status code =
    if code == "BadRequestError" || code == "InvalidParamsErrror"
    then 400
    else if code == "UnauthorizedError"
    then 401
    else if code == "ForbiddenError"
    then 403
    else if code == "NotFoundError"
    then 404
    else if code == "ConflictError"
    then 409
    else if code == "RpcTimeoutError"
    then 504
    else if code == "RetryExhaustedError"
    then 502
    else 500

unfoldable pub code_of : Failure → String
code_of (thrown (some name) message details stack) = if name == "" then "Error" else name
code_of e = "Error"

abbrev message_of : Failure → String
message_of (thrown name (some message) details stack) = message
message_of (thrown_text s) = s
message_of e = "Internal server error"

abbrev stack_of : Bool → Option String → Option Json
stack_of production (some stack) =
    if not production && not (stack == "") then some (text stack) else none
stack_of production none = none

abbrev details_of : Bool → Failure → Option Json
details_of production (thrown name message (some d) stack) = some d
details_of production (thrown name message none stack) = stack_of production stack
details_of production e = none

unfoldable pub send_error : Bool → Failure → Option ℕ → ErrorBody
send_error production e status = record {
  status_code = elim status [ none ↦ error_status (code_of e) | some n ↦ n ];
  code = code_of e;
  message = message_of e;
  details = details_of production e;
}

-- the ways in which a response is written
pub data Response : Type 0 where
  ended : (status : ℕ) (headers : JsMap Json) → Response
  json_body : (status : ℕ) (headers : JsMap Json) → Json → Response
  raw_body : (status : ℕ) (headers : JsMap Json) (from_base64 : Bool) → Json → Response
  redirected : (status : ℕ) → Json → Response
  envelope : ErrorBody → Response

-- a call of the broker
pub record Call : Type 0 where
  pub topic : String
  pub action : String
  pub payload : JsMap Json
  pub headers : JsMap Json
  pub timeout : Option ℕ

-- `accepts` is what Express throws on a response, if it does, before anything of it is sent.
-- `to_binary` is `toString('binary')`, none if it throws.
pub record Outside : Type 0 where
  pub platform : Platform
  pub acl : Acl
  pub parse_multipart : Request → Failure ⊎ Request
  pub publish_message : Call → Option Failure
  pub request_data : Call → Failure ⊎ Option Json
  pub accepts : Response → Option Failure
  pub to_binary : Json → Option Json
  pub mentions_json : Json → Bool
  pub header_name : String → String
  pub production : Bool
  pub header_prefix : Option String

pub data Effect : Type 0 where
  published : Call → Effect
  requested : Call → Effect
  answered : Response → Effect

-- What a handler did, and whether its promise was rejected in the end
pub record Run : Type 0 where
  pub effects : List Effect
  pub rejected : Bool

abbrev finished : List Effect → Run
finished effects = record { effects = effects; rejected = false }

abbrev pub rejects : Run
rejects = record { effects = []; rejected = true }

-- what a part of a handler did, and what it threw in the end
abbrev pub Attempt : Type 0
Attempt = List Effect × Option Failure

-- an error that nobody catches rejects the promise
abbrev run_of : Attempt → Run
run_of (es, none) = finished es
run_of (es, some e) = record { effects = es; rejected = true }

abbrev pub name_of_undefined : Failure
name_of_undefined =
    thrown (some "TypeError") (some "Cannot read properties of undefined (reading 'name')") none
      none

-- what a log line with `error.name` throws
abbrev logged : Failure → Option Failure
logged (thrown name message details stack) = none
logged (thrown_text s) = none
logged nothing = some name_of_undefined

abbrev and_logged : Attempt → Failure → Attempt
and_logged (es, none) e = (es, logged e)
and_logged (es, some f) e = (es, some f)

-- the response was written
abbrev is_sent : List Effect → Bool
is_sent [] = false
is_sent (answered r ∷ es) = true
is_sent (published c ∷ es) = is_sent es
is_sent (requested c ∷ es) = is_sent es

-- an attempt after what was done before it
abbrev preceded : List Effect → Attempt → Attempt
preceded es (es', t) = (es ++ es', t)

-- `code || d` for a status
abbrev status_or : Option ℕ → ℕ → ℕ
status_or none d = d
status_or (some n) d = if nat_eq n 0 then d else n

module _ (o : Outside) where
  -- `http_headers`, one forwarded header
  abbrev forward : Request → String → String → JsMap Json → JsMap Json
  forward req key wanted payload =
      elim (find (λ (e : String × String). o.header_name e.0 == o.header_name wanted) req.headers) [
        | none ↦ payload
        | some (name, value) ↦
            if name == "" then payload else set payload (prefixed o.header_prefix) (text value)
      ]
    where
      prefixed : Option String → String
      prefixed none = key
      prefixed (some prefix) = template (prefix ∷ key ∷ [])

  abbrev forward_all : Request → JsMap String → JsMap Json → JsMap Json
  forward_all req [] payload = payload
  forward_all req ((key, wanted) ∷ more) payload =
      forward_all req more (forward req key wanted payload)

  unfoldable pub http_headers : Request → PathDefinition → JsMap Json
  http_headers req path = forward_all req path.forward_headers []

  -- the headers of the message: forwarded ones, then the identity, then the gateway's own
  unfoldable pub message_headers : Request → PathDefinition → ProcessedAuthData → JsMap Json
  unfolding http_headers
  message_headers req path auth_data =
      assign (assign (http_headers req path) (delete auth_data "success"))
        (("X-GTW-METHOD", text req.method) ∷ ("X-GTW-PATH", text path.path) ∷ [])

  abbrev wrote : Option Failure → Response → Attempt
  wrote none r = (answered r ∷ [], none)
  wrote (some e) r = ([], some e)

  -- sendError
  abbrev send : Option ℕ → Failure → Attempt
  send status e =
      wrote (o.accepts (envelope (send_error o.production e status)))
        (envelope (send_error o.production e status))

  -- the catch of a branch: the error envelope, and then the log
  abbrev report : Option ℕ → Failure → Attempt
  report status e = and_logged (send status e) e

  -- a response in the try of a branch
  abbrev responded : Option Failure → Option ℕ → Response → Attempt
  responded none status r = (answered r ∷ [], none)
  responded (some e) status r = report status e

  abbrev respond : Option ℕ → Response → Attempt
  respond status r = responded (o.accepts r) status r

  abbrev content_type : JsMap Json → JsMap Json
  content_type headers =
      if has headers "Content-Type"
      then headers
      else set headers "Content-Type" (text "application/json")

  abbrev says_json : JsMap Json → Bool
  says_json headers = elim (get headers "Content-Type") [
    | none ↦ false
    | some j ↦ o.mentions_json j
  ]

  -- the answer to an RPC reply that is neither undefined nor null
  unfoldable pub content : PathDefinition → Json → Response
  content path resp = elim path.redirect [
    | some n ↦ if nat_eq n 0 then plain else redirected n resp
    | none ↦ plain
  ]
    where
      headers : JsMap Json
      headers = content_type path.headers

      status : ℕ
      status = status_or path.success_status_code 200

      plain : Response
      plain =
          if says_json headers
          then json_body status headers resp
          else raw_body status headers path.binary resp

  unfoldable pub reply : PathDefinition → Option Json → Response
  reply path none = ended (status_or path.success_status_code 204) []
  reply path (some null) = ended (status_or path.success_status_code 204) []
  reply path (some resp) = content path resp

  unfoldable pub call_of : Request → PathDefinition → ProcessedAuthData → JsMap Json → Call
  call_of req path auth_data payload = record {
    topic = path.topic;
    action = path.action;
    payload = payload;
    headers = message_headers req path auth_data;
    timeout = if path.mode == "rpc" then path.timeout else none;
  }

  abbrev after_publish : Option Failure → PathDefinition → Attempt
  after_publish none path =
      respond (some 503) (ended (status_or path.success_status_code 202) path.headers)
  after_publish (some e) path = report (some 503) e

  abbrev pub after_request : Failure ⊎ Option Json → PathDefinition → Attempt
  after_request (inl e) path = report none e
  after_request (inr resp) path = respond none (reply path resp)

  -- what stands in the outer try
  unfoldable pub forward_call : PathDefinition → Call → Attempt
  forward_call path call =
      if path.mode == "event"
      then preceded (published call ∷ []) (after_publish (o.publish_message call) path)
      else if path.mode == "rpc"
      then preceded (requested call ∷ []) (after_request (o.request_data call) path)
      else ([], some (thrown (some "Error") (some (invalid path.mode)) none none))
    where
      invalid : String → String
      invalid mode = template ("Invalid mode '" ∷ mode ∷ "' for path definition" ∷ [])

  -- the outer catch after its log: a second response throws
  abbrev second_try : Option Failure → Bool → List Effect → Failure → Run
  second_try (some f) sent es e = record { effects = es; rejected = true }
  second_try none true es e = record { effects = es; rejected = true }
  second_try none false es e = run_of (preceded es (send none e))

  abbrev pub conclude : Attempt → Run
  conclude (es, none) = finished es
  conclude (es, some e) = second_try (logged e) (is_sent es) es e

  -- the part behind the gate; encoding the files is outside of every try
  abbrev deliver : Option (JsMap Json) → Request → PathDefinition → ProcessedAuthData → Run
  deliver none req path auth_data = rejects
  deliver (some payload) req path auth_data =
      conclude (forward_call path (call_of req path auth_data payload))

  unfoldable pub dispatch : Request → PathDefinition → ProcessedAuthData → Run
  unfolding data_of
  dispatch req path auth_data = deliver (data_of o.to_binary req path) req path auth_data

  abbrev refuse : String → String → ℕ → Run
  refuse name message status =
      run_of (send (some status) (thrown (some name) (some message) none none))

  -- (2) authorization
  abbrev after_acl : Result Bool → Request → PathDefinition → ProcessedAuthData → Run
  after_acl (err e) req path auth_data =
      refuse "ServiceUnavailable" "Authorization service unavailable" 503
  after_acl (ok false) req path auth_data = refuse "Forbidden" "Forbidden" 403
  after_acl (ok true) req path auth_data = dispatch req path auth_data

  unfoldable pub authorize : Request → PathDefinition → Providers → ProcessedAuthData → Run
  authorize req path st auth_data =
      if path.allow_anonymous
      then dispatch req path auth_data
      else after_acl (check_actions o.acl st auth_data path (some (extract_resource_context req)))
          req path auth_data

  abbrev after_parse : Failure ⊎ Request → PathDefinition → Providers → ProcessedAuthData → Run
  after_parse (inl e) path st auth_data =
      run_of (send (some (if code_of e == "MulterError" then 413 else 400)) e)
  after_parse (inr req) path st auth_data = authorize req path st auth_data

  -- (1) authentication
  abbrev after_auth : Result ProcessedAuthData → Request → PathDefinition → Providers → Run
  after_auth (err e) req path st = rejects
  after_auth (ok auth_data) req path st =
      if not path.allow_anonymous && given path.auth && not (truthy (get auth_data "success"))
      then refuse "Unauthorized" "Unauthorized" 401
      else after_parse (o.parse_multipart req) path st auth_data

  unfoldable pub handle : Request → PathDefinition → Providers → Run × Providers
  handle req path st =
      let (auth, clients) = process_auth_data o.platform req path st in
      (after_auth auth req path st, record st { clients = clients })
