-- ===== src/Amqp/Drain/Latch.antt =====
-- After a drain no consumer comes back, if no set-up was under way.
use nestjs_amqp.Prelude.{
  String, true, Option, none, some, List, [], ◌∷◌, ◌++◌, ◌≡◌, refl, sym, ap, ◌∙◌, if◌then◌else◌,
  map, In, All, includes, arith, eq_iff, eq_refl, subst,
}
use nestjs_amqp.JsMap.{JsMap, get, delete}
use nestjs_amqp.JsMap.Laws.{get-set}
use nestjs_amqp.Amqp.Drain.{
  Consumers, consumer_factory, begin_setup, finish_setup, cancel_consumer, cancel_found,
  cancel_each, cancel_all_consumers, Step, subscribes, begins, finishes, cancels, Reach, here, next,
}

delete_of_absent : (m : JsMap String) (k : String) → get m k ≡ none → delete m k ≡ m
delete_of_absent [] k h = refl
delete_of_absent ((j, v) ∷ m) k h = ground (arith, h, delete_of_absent m k)

live-found :
    (o : Option String) (tag : String) (st : Consumers)
    → get st.live tag ≡ o
    → (cancel_found o tag st).live ≡ delete st.live tag
live-found none tag st h = sym (delete_of_absent st.live tag h)
live-found (some q) tag st h = refl

live-cancel : (tag : String) (st : Consumers) → (cancel_consumer tag st).live ≡ delete st.live tag
unfolding cancel_consumer
live-cancel tag st = live-found (get st.live tag) tag st refl

kept-found :
    (o : Option String) (tag : String) (st : Consumers)
    → ((cancel_found o tag st).canceled ≡ st.canceled)
      × ((cancel_found o tag st).pending ≡ st.pending)
kept-found none tag st = (refl, refl)
kept-found (some q) tag st = (refl, refl)

kept-cancel :
    (tag : String) (st : Consumers)
    → ((cancel_consumer tag st).canceled ≡ st.canceled)
      × ((cancel_consumer tag st).pending ≡ st.pending)
unfolding cancel_consumer
kept-cancel tag st = kept-found (get st.live tag) tag st

covered-delete :
    (m : JsMap String) (k : String) (ks : List String)
    → All (λ (e : String × String). includes (k ∷ ks) e.0 ≡ true) m
    → All (λ (e : String × String). includes ks e.0 ≡ true) (delete m k)
covered-delete [] k ks h = tt
covered-delete ((j, v) ∷ m) k ks (c, h) =
    ground (arith, c, eq_iff k j, eq_iff j k, covered-delete m k ks h)

uncovered : (m : JsMap String) → All (λ (e : String × String). includes [] e.0 ≡ true) m → m ≡ []
uncovered [] h = refl
uncovered (e ∷ m) (c, h) = absurd (cc)

cancel_each-live :
    (tags : List String) (st : Consumers)
    → All (λ (e : String × String). includes tags e.0 ≡ true) st.live
    → (cancel_each tags st).live ≡ []
cancel_each-live [] st h = uncovered st.live h
cancel_each-live (tag ∷ tags) st h = cancel_each-live tags (cancel_consumer tag st) (
    subst (All (λ (e : String × String). includes tags e.0 ≡ true)) (sym (live-cancel tag st))
      (covered-delete st.live tag tags h))

cancel_each-kept :
    (tags : List String) (st : Consumers)
    → ((cancel_each tags st).canceled ≡ st.canceled) × ((cancel_each tags st).pending ≡ st.pending)
cancel_each-kept [] st = (refl, refl)
cancel_each-kept (tag ∷ tags) st =
    let (c, p) = cancel_each-kept tags (cancel_consumer tag st) in
    let (c', p') = kept-cancel tag st in (c ∙ c', p ∙ p')

covered_more :
    (k : String) (ks : List String) (m : JsMap String)
    → All (λ (e : String × String). includes ks e.0 ≡ true) m
    → All (λ (e : String × String). includes (k ∷ ks) e.0 ≡ true) m
covered_more k ks [] h = tt
covered_more k ks (e ∷ m) (c, h) = (ground (arith, c), covered_more k ks m h)

-- a map's own keys
covers_itself :
    (m : JsMap String)
    → All (λ (e : String × String). includes (map (λ (x : String × String). x.0) m) e.0 ≡ true) m
covers_itself [] = tt
covers_itself ((k, v) ∷ m) = (
  ground (arith, eq_refl k),
  covered_more k (map (λ (x : String × String). x.0) m) m (covers_itself m),
)

-- The latch is set, no set-up is under way, and no consumer is left.
abbrev pub IsDrained : Consumers → Type 0
IsDrained st = (st.canceled ≡ true) × (st.pending ≡ []) × (st.live ≡ [])

Step-IsDrained : (st st' : Consumers) → IsDrained st → Step st st' → IsDrained st'
unfolding consumer_factory begin_setup
Step-IsDrained st st' (latched, idle, silent) (subscribes q e) = absurd (ground (arith, latched, e))
Step-IsDrained st st' (latched, idle, silent) (begins q i) =
    subst IsDrained
      (sym (ap (λ b. if b then st else record st { pending = st.pending ++ q ∷ [] }) latched))
      (latched, idle, silent)
Step-IsDrained st st' (latched, idle, silent) (finishes tag q i) =
    absurd (nobody (subst (In q) idle i))
  where
    nobody : In q [] → ⊥
    nobody i = i
Step-IsDrained st st' (latched, idle, silent) (cancels tag) =
    let (c, p) = kept-cancel tag st in
    (c ∙ latched, p ∙ idle, live-cancel tag st ∙ ap (λ m. delete m tag) silent)

Reach-IsDrained : (st st' : Consumers) → IsDrained st → Reach st st' → IsDrained st'
Reach-IsDrained st st' h here = h
Reach-IsDrained st st' h (next s r) = Reach-IsDrained _ st' (Step-IsDrained st _ h s) r

-- After a drain that met no set-up under way, no sequence of subscriptions, reconnects and
-- cancellations brings a consumer back.
pub cancel_all_consumers-IsDrained :
    (st st' : Consumers) → st.pending ≡ [] → Reach (cancel_all_consumers st) st' → IsDrained st'
unfolding cancel_all_consumers
cancel_all_consumers-IsDrained st st' idle r =
    let tags = map (λ (e : String × String). e.0) st.live in
    let (c, p) = cancel_each-kept tags (record st { canceled = true }) in
    Reach-IsDrained (cancel_all_consumers st) st'
      (c, p ∙ idle, cancel_each-live tags (record st { canceled = true }) (covers_itself st.live)) r

-- A set-up that passed the latch before the drain registers its consumer after it, and the latch
-- is set.
pub cancel_all_consumers-leaks :
    (st : Consumers) (tag q : String)
    → In q st.pending
    → Reach (cancel_all_consumers st) (finish_setup tag q (cancel_all_consumers st))
      × ((finish_setup tag q (cancel_all_consumers st)).canceled ≡ true)
      × (get (finish_setup tag q (cancel_all_consumers st)).live tag ≡ some q)
unfolding cancel_all_consumers finish_setup
cancel_all_consumers-leaks st tag q i =
    let tags = map (λ (e : String × String). e.0) st.live in
    let (c, p) = cancel_each-kept tags (record st { canceled = true }) in
    (
      next (finishes tag q (subst (In q) (sym p) i)) here,
      c,
      get-set (cancel_all_consumers st).live tag tag q ∙ ground (arith, eq_refl tag),
    )
