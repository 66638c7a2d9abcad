-- ===== src/Broker/Registry/Contract.antt =====
-- The registry against its contract: a partial function from kinds and topics to handlers.
use nestjs_amqp.Prelude.{
  String, Bool, true, false, ◌&&◌, Option, none, some, List, [], ◌∷◌, ◌==◌, ◌≡◌, refl, ap, ◌∙◌,
  if◌then◌else◌, arith, Option-cases, inl, inr,
}
use nestjs_amqp.Prelude.Result.{Result, ok, err}
use nestjs_amqp.JsMap.{JsMap, get, has}
use nestjs_amqp.JsMap.Laws.{get-set, get-delete}
use nestjs_amqp.Broker.Registry.{
  Handler, Kind, fun, rpc, Registry, register, get_handlers, unregister, clear, already,
  no_handlers,
}

-- The contract: which handler stands at a kind and a topic.
abbrev pub Contract : Type 0
Contract = Kind → String → Option Handler

abbrev same_kind : Kind → Kind → Bool
same_kind fun fun = true
same_kind rpc rpc = true
same_kind k l = false

abbrev at : Kind → String → Kind → String → Bool
at k t l u = same_kind k l && t == u

pub data Command : Type 0 where
  registers : Kind → String → Handler → Command
  looks_up : Kind → String → Command
  unregisters : Kind → String → Command
  clears : Command

-- what the caller of a command sees
pub data Answer : Type 0 where
  done : Result (Unit {0}) → Answer
  found : Option Handler → Answer
  existed : Bool → Answer

abbrev pub nothing_yet : Contract
nothing_yet k t = none

abbrev is_there : Option Handler → Bool
is_there none = false
is_there (some h) = true

-- a topic takes one handler of each kind; a second one is refused and changes nothing
abbrev pub contract_step : Command → Contract → Answer × Contract
contract_step (registers k t h) c =
    if is_there (c k t)
    then (done (err (already t)), c)
    else (done (ok tt), λ l u. if at k t l u then some h else c l u)
contract_step (looks_up k t) c = (found (c k t), c)
contract_step (unregisters k t) c =
    (existed (is_there (c k t)), λ l u. if at k t l u then none else c l u)
contract_step clears c = (done (ok tt), nothing_yet)

abbrev pub registry_step : Command → Registry → Answer × Registry
registry_step (registers k t h) st = let (r, st') = register k t h st in (done r, st')
registry_step (looks_up k t) st = (found (get_handlers k t st), st)
registry_step (unregisters k t) st = let (b, st') = unregister k t st in (existed b, st')
registry_step clears st = (done (ok tt), clear st)

abbrev pub contract_run : List Command → Contract → List Answer
contract_run [] c = []
contract_run (m ∷ ms) c = let (a, c') = contract_step m c in a ∷ contract_run ms c'

abbrev pub registry_run : List Command → Registry → List Answer
registry_run [] st = []
registry_run (m ∷ ms) st = let (a, st') = registry_step m st in a ∷ registry_run ms st'

-- The registry holds the handlers of the contract.
abbrev IsRefined : Registry → Contract → Type 0
IsRefined st c = (k : Kind) (t : String) → get_handlers k t st ≡ c k t

has-is_there : (m : JsMap Handler) (t : String) → has m t ≡ is_there (get m t)
has-is_there m t = elim (Option-cases (get m t)) [
  | inl e ↦ ground (arith, e)
  | inr (h, e) ↦ ground (arith, e)
]

register-answer :
    (k : Kind) (t : String) (h : Handler) (st : Registry) (c : Contract)
    → IsRefined st c
    → done (register k t h st).0 ≡ (contract_step (registers k t h) c).0
unfolding register get_handlers
register-answer fun t h st c r = ground (arith, has-is_there st.registry t, r fun t)
register-answer rpc t h st c r = ground (arith, has-is_there st.rpc_registry t, r rpc t)

register-view :
    (k l : Kind) (t u : String) (h : Handler) (st : Registry) (c : Contract)
    → IsRefined st c
    → get_handlers l u (register k t h st).1 ≡ (contract_step (registers k t h) c).1 l u
unfolding register get_handlers
register-view fun fun t u h st c r =
    ground (arith, has-is_there st.registry t, r fun t, r fun u, get-set st.registry t u h)
register-view fun rpc t u h st c r = ground (arith, has-is_there st.registry t, r fun t, r rpc u)
register-view rpc rpc t u h st c r =
    ground (arith, has-is_there st.rpc_registry t, r rpc t, r rpc u, get-set st.rpc_registry t u h)
register-view rpc fun t u h st c r =
    ground (arith, has-is_there st.rpc_registry t, r rpc t, r fun u)

unregister-answer :
    (k : Kind) (t : String) (st : Registry) (c : Contract)
    → IsRefined st c
    → existed (unregister k t st).0 ≡ (contract_step (unregisters k t) c).0
unfolding unregister get_handlers
unregister-answer fun t st c r = ground (arith, has-is_there st.registry t, r fun t)
unregister-answer rpc t st c r = ground (arith, has-is_there st.rpc_registry t, r rpc t)

unregister-view :
    (k l : Kind) (t u : String) (st : Registry) (c : Contract)
    → IsRefined st c
    → get_handlers l u (unregister k t st).1 ≡ (contract_step (unregisters k t) c).1 l u
unfolding unregister get_handlers
unregister-view fun fun t u st c r = ground (arith, r fun u, get-delete st.registry t u)
unregister-view fun rpc t u st c r = r rpc u
unregister-view rpc rpc t u st c r = ground (arith, r rpc u, get-delete st.rpc_registry t u)
unregister-view rpc fun t u st c r = r fun u

empty-view : (k : Kind) (t : String) → get_handlers k t no_handlers ≡ none
unfolding get_handlers
empty-view fun t = refl
empty-view rpc t = refl

step-answer :
    (m : Command) (st : Registry) (c : Contract)
    → IsRefined st c
    → (registry_step m st).0 ≡ (contract_step m c).0
step-answer (registers k t h) st c r = register-answer k t h st c r
step-answer (looks_up k t) st c r = ap found (r k t)
step-answer (unregisters k t) st c r = unregister-answer k t st c r
step-answer clears st c r = refl

step-IsRefined :
    (m : Command) (st : Registry) (c : Contract)
    → IsRefined st c
    → IsRefined (registry_step m st).1 (contract_step m c).1
unfolding clear
step-IsRefined (registers k t h) st c r = λ l u. register-view k l t u h st c r
step-IsRefined (looks_up k t) st c r = r
step-IsRefined (unregisters k t) st c r = λ l u. unregister-view k l t u st c r
step-IsRefined clears st c r = empty-view

run-refined :
    (ms : List Command) (st : Registry) (c : Contract)
    → IsRefined st c
    → registry_run ms st ≡ contract_run ms c
run-refined [] st c r = refl
run-refined (m ∷ ms) st c r =
    let tail =
      run-refined ms (registry_step m st).1 (contract_step m c).1 (step-IsRefined m st c r) in
    ap (λ a. a ∷ registry_run ms (registry_step m st).1) (step-answer m st c r)
    ∙ ap (λ as_. (contract_step m c).0 ∷ as_) tail

-- Every sequence of registrations, look-ups, removals and clearings gets the answers of the contract:
-- each kind and topic holds at most one handler, the first one until it is removed.
pub registry_run-contract :
    (ms : List Command) → registry_run ms no_handlers ≡ contract_run ms nothing_yet
registry_run-contract ms = run-refined ms no_handlers nothing_yet empty-view
