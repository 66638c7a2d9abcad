-- ===== src/Proxy/Capacity.antt =====
-- modules/proxy/services/http-handler.service.ts: the cap on the requests in flight, and the reloads
-- of the route table, as steps on the counters and flags that the service keeps.
pub mod Bounds
pub mod Reloads
use nestjs_amqp.Prelude.{
  ℕ, zero, suc, ◌+◌, ◌-◌, String, Bool, true, false, ◌&&◌, ◌||◌, not, Option, none, some, List, [],
  ◌∷◌, ◌++◌, ◌==◌, if◌then◌else◌, leb, ltb, length,
}
use nestjs_amqp.Prelude.Result.{Result, ok, err}
use nestjs_amqp.Proxy.Provider.{given}
use nestjs_amqp.Proxy.Auth.{PathDefinition}

-- `inFlight`, and for each request that the middleware admitted its `released`
pub record Flight : Type 0 where
  pub in_flight : ℕ
  pub released : List Bool

abbrev pub no_flight : Flight
no_flight = record { in_flight = 0; released = [] }

-- There is a cap, so that the middleware is mounted: a cap of 0 or less, or no cap, is none.
unfoldable pub is_capped : ℕ → Bool
is_capped max_concurrent = ltb 0 max_concurrent

-- the middleware turns a request away
unfoldable pub is_busy : ℕ → Flight → Bool
unfolding is_capped
is_busy max_concurrent st = is_capped max_concurrent && leb max_concurrent st.in_flight

-- without the middleware nothing is counted
unfoldable pub arrive : ℕ → Flight → Flight
arrive max_concurrent st =
    if not (is_capped max_concurrent)
    then st
    else if is_busy max_concurrent st
    then st
    else record { in_flight = st.in_flight + 1; released = st.released ++ false ∷ [] }

abbrev pub released_at : List Bool → ℕ → Bool
released_at [] i = true
released_at (b ∷ bs) zero = b
released_at (b ∷ bs) (suc i) = released_at bs i

abbrev pub mark_at : List Bool → ℕ → List Bool
mark_at [] i = []
mark_at (b ∷ bs) zero = true ∷ bs
mark_at (b ∷ bs) (suc i) = b ∷ mark_at bs i

-- `release` of request i
unfoldable pub release : ℕ → Flight → Flight
release i st =
    if released_at st.released i
    then st
    else record { in_flight = st.in_flight - 1; released = mark_at st.released i }

-- a request arrives, or the response of one finishes or is closed
pub data Move : Type 0 where
  arrives : Move
  finishes : ℕ → Move
  closes : ℕ → Move

unfoldable pub move : ℕ → Move → Flight → Flight
move max_concurrent arrives st = arrive max_concurrent st
move max_concurrent (finishes i) st = release i st
move max_concurrent (closes i) st = release i st

unfoldable pub run_moves : ℕ → List Move → Flight → Flight
run_moves max_concurrent [] st = st
run_moves max_concurrent (m ∷ ms) st = run_moves max_concurrent ms (move max_concurrent m st)

-- `reloadInFlight` and `reloadPending`; `signals` counts the calls of `reload`, `seen` is their
-- number when the pass under way began, `served` when the last pass that is over began, and `passes`
-- counts the passes
pub record Reloading : Type 0 where
  pub reload_in_flight : Bool
  pub reload_pending : Bool
  pub signals : ℕ
  pub seen : ℕ
  pub served : ℕ
  pub passes : ℕ

abbrev pub no_reload : Reloading
no_reload = record {
  reload_in_flight = false;
  reload_pending = false;
  signals = 0;
  seen = 0;
  served = 0;
  passes = 0;
}

-- a call of `reload` up to the first wait for `doReload`
unfoldable pub reload : Reloading → Reloading
reload st =
    if st.reload_in_flight
    then record st { reload_pending = true; signals = st.signals + 1 }
    else record {
      reload_in_flight = true;
      reload_pending = false;
      signals = st.signals + 1;
      seen = st.signals + 1;
      served = st.served;
      passes = st.passes + 1;
    }

-- `doReload` is over: the test of the loop, and the next round or the end
unfoldable pub pass_over : Reloading → Reloading
pass_over st =
    if not st.reload_in_flight
    then st
    else if st.reload_pending
    then record st {
      reload_pending = false;
      seen = st.signals;
      served = st.seen;
      passes = st.passes + 1;
    }
    else record st { reload_in_flight = false; served = st.seen }

-- a message on the control topic: what it asks for
pub data Control : Type 0 where
  reloads_routes : Control
  reloads_providers : Control
  is_ignored : Control

unfoldable pub on_control : Option String → Control
on_control none = reloads_routes
on_control (some action) =
    if action == "gw-auth-reload"
    then reloads_providers
    else if not (action == "") && not (action == "gw-reload")
    then is_ignored
    else reloads_routes

pub data Signal : Type 0 where
  control : Option String → Signal
  over : Signal

abbrev obey : Control → Reloading → Reloading
obey reloads_routes st = reload st
obey c st = st

unfoldable pub signalled : Signal → Reloading → Reloading
signalled (control action) st = obey (on_control action) st
signalled over st = pass_over st

unfoldable pub run_signals : List Signal → Reloading → Reloading
run_signals [] st = st
run_signals (s ∷ ss) st = run_signals ss (signalled s st)

-- registerPath, as far as it throws; `is_method` says whether Express has a function of that name
unfoldable pub registers : (String → Bool) → PathDefinition → Bool
registers is_method path =
    not (path.method == "")
    && not (path.path == "")
    && not (path.topic == "")
    && not (path.mode == "")
    && is_method path.method

-- what the database exports: a list, or something else
abbrev exported : Option (Result (Option (List PathDefinition))) → List PathDefinition
exported (some (ok (some paths))) = paths
exported reply = []

abbrev register_all :
    (String → Bool) → List PathDefinition → List PathDefinition → List PathDefinition
register_all is_method [] router = router
register_all is_method (p ∷ ps) router =
    register_all is_method ps (if registers is_method p then router ++ p ∷ [] else router)

-- the new route table and the number of its routes
unfoldable pub do_reload :
    (String → Bool)
    → List PathDefinition
    → Option (Result (Option (List PathDefinition)))
    → List PathDefinition × ℕ
do_reload is_method yaml reply =
    let router = register_all is_method (yaml ++ exported reply) [] in (router, length router)
