-- ===== src/Proxy/Capacity/Bounds.antt =====
-- The number of requests in flight.
use nestjs_amqp.Prelude.{
  ℕ, zero, suc, ◌+◌, ◌≤◌, Bool, true, false, List, [], ◌∷◌, ◌++◌, ◌≡◌, ◌↔◌, refl, arith, leb, ltb,
  ◌<◌, leb→le, Bool-cases, inl, inr, ap,
}
use nestjs_amqp.Proxy.Capacity.{
  Flight, no_flight, is_busy, is_capped, arrive, released_at, mark_at, release, Move, arrives,
  finishes, closes, move, run_moves,
}

-- the admitted requests that are not released
abbrev pub open_requests : List Bool → ℕ
open_requests [] = zero
open_requests (true ∷ bs) = open_requests bs
open_requests (false ∷ bs) = suc (open_requests bs)

open-append : (bs : List Bool) → open_requests (bs ++ false ∷ []) ≡ open_requests bs + 1
open-append [] = refl
open-append (true ∷ bs) = open-append bs
open-append (false ∷ bs) = ground (arith, open-append bs)

open-mark :
    (bs : List Bool) (i : ℕ)
    → released_at bs i ≡ false
    → open_requests bs ≡ suc (open_requests (mark_at bs i))
open-mark [] i h = absurd (cc)
open-mark (true ∷ bs) zero h = absurd (cc)
open-mark (false ∷ bs) zero h = refl
open-mark (true ∷ bs) (suc i) h = open-mark bs i h
open-mark (false ∷ bs) (suc i) h = ap suc (open-mark bs i h)

-- The counter is the number of open requests, within the cap.
abbrev IsCounted : ℕ → Flight → Type 0
IsCounted max_concurrent st =
    (st.in_flight ≡ open_requests st.released) × (st.in_flight ≤ max_concurrent)

arrive-IsCounted : (n : ℕ) (st : Flight) → IsCounted n st → IsCounted n (arrive n st)
unfolding arrive is_busy is_capped
arrive-IsCounted n st (c, b) = elim (Bool-cases (ltb 0 n)) [
  | inr none ↦ ground (arith, none, c, b)
  | inl capped ↦ elim (Bool-cases (leb n st.in_flight)) [
    | inl e ↦ ground (arith, capped, e, c, b)
    | inr e ↦ ground (arith, capped, e, c, b, open-append st.released)
  ]
]

release-IsCounted : (n i : ℕ) (st : Flight) → IsCounted n st → IsCounted n (release i st)
unfolding release
release-IsCounted n i st (c, b) = elim (Bool-cases (released_at st.released i)) [
  | inl e ↦ ground (arith, e, c, b)
  | inr e ↦ ground (arith, e, c, b, open-mark st.released i e)
]

run_moves-IsCounted :
    (n : ℕ) (ms : List Move) (st : Flight) → IsCounted n st → IsCounted n (run_moves n ms st)
unfolding run_moves move
run_moves-IsCounted n [] st c = c
run_moves-IsCounted n (arrives ∷ ms) st c =
    run_moves-IsCounted n ms (arrive n st) (arrive-IsCounted n st c)
run_moves-IsCounted n (finishes i ∷ ms) st c =
    run_moves-IsCounted n ms (release i st) (release-IsCounted n i st c)
run_moves-IsCounted n (closes i ∷ ms) st c =
    run_moves-IsCounted n ms (release i st) (release-IsCounted n i st c)

is_busy_iff :
    (n : ℕ) (st : Flight)
    → IsCounted n st
    → (is_busy n st ≡ true) ↔ ((0 < n) × (open_requests st.released ≡ n))
unfolding is_busy is_capped
is_busy_iff n st (c, b) = (
  (λ h. (ground (arith, h), ground (arith, leb→le n st.in_flight, h, c, b))),
  (λ h. ground (arith, c, b, h.0, h.1)),
)

-- However requests arrive, finish and are closed, both of them for one request or in any order, the
-- counter is the number of requests that the cap's middleware has admitted and that are neither
-- finished nor closed, it never exceeds the cap, and a request is turned away exactly when there is a
-- cap and as many as it allows are open; with a cap of 0 none is.
pub run_moves-bounds :
    (n : ℕ) (ms : List Move)
    → ((run_moves n ms no_flight).in_flight ≡ open_requests (run_moves n ms no_flight).released)
      × ((run_moves n ms no_flight).in_flight ≤ n)
      × ((is_busy n (run_moves n ms no_flight) ≡ true)
          ↔ ((0 < n) × (open_requests (run_moves n ms no_flight).released ≡ n)))
run_moves-bounds n ms =
    let (c, b) = run_moves-IsCounted n ms no_flight (refl, ground arith) in
    (c, b, is_busy_iff n (run_moves n ms no_flight) (c, b))
