-- ===== src/Admin/Rollup/Windows.antt =====
-- Which points a rollup is made of.
use nestjs_amqp.Prelude.{
  ℕ, zero, suc, ◌+◌, ◌-◌, ◌*◌, ◌/◌, ◌≤◌, ◌<◌, Bool, true, false, Option, List, [], ◌∷◌, ◌≡◌, refl,
  All, All-append, arith, Bool-cases, inl, inr,
}
use nestjs_amqp.Prelude.Result.{Result, ok, err}
use nestjs_amqp.Admin.Metrics.{Point, aggregate_rollups}
use nestjs_amqp.Admin.Rollup.{
  hour_ms, RollupCall, reads, records, releases, acquire, previous_hour_start, after_points,
  release_lock, rollup_hour, rollup_hours, run_catchup,
}

-- The window is one whole hour that is over.
abbrev pub IsPastHour : ℕ → ℕ → ℕ → Type 0
IsPastHour now from to = (k : ℕ) × (from ≡ k * 3600000) × (to + 1 ≡ from + 3600000) × (to < now)

past_hour :
    (now i : ℕ)
    → (i + 2) * 3600000 ≤ now
    → (k : ℕ) × (now / 3600000 * 3600000 - 3600000 - i * 3600000 ≡ k * 3600000)
      × (now / 3600000 * 3600000 - 3600000 - i * 3600000 + 3600000 - 1 + 1
          ≡ now / 3600000 * 3600000 - 3600000 - i * 3600000 + 3600000)
      × (now / 3600000 * 3600000 - 3600000 - i * 3600000 + 3600000 - 1 < now)
past_hour now i h = (now / 3600000 - 1 - i, omega arith, omega arith, omega arith)

module _ (points : ℕ → ℕ → Result (List Point)) (now : ℕ) where
  -- What is read is a past hour, and what is recorded is aggregated from the points of one.
  abbrev pub IsOfPastHour : RollupCall → Type 0
  IsOfPastHour (reads from to) = IsPastHour now from to
  IsOfPastHour (records groups) =
      (from to : ℕ) × (read : List Point) × IsPastHour now from to
      × (points from to ≡ ok read)
      × (groups ≡ aggregate_rollups read hour_ms)
  IsOfPastHour releases = Unit

  after_points-IsOfPastHour :
      (from to : ℕ) (r : Result (List Point))
      → IsPastHour now from to
      → points from to ≡ r
      → All IsOfPastHour (after_points r)
  after_points-IsOfPastHour from to (err e) past h = tt
  after_points-IsOfPastHour from to (ok []) past h = tt
  after_points-IsOfPastHour from to (ok (p ∷ ps)) past h = ((from, to, p ∷ ps, past, h, refl), tt)

  rollup_hour-IsOfPastHour :
      (i : ℕ)
      → (i + 2) * hour_ms ≤ now
      → All IsOfPastHour (rollup_hour points (previous_hour_start now - i * hour_ms))
  unfolding rollup_hour previous_hour_start
  rollup_hour-IsOfPastHour i h =
      (past_hour now i h, after_points-IsOfPastHour _ _ _ (past_hour now i h) refl)

  release_lock-IsOfPastHour : (b : Bool) → All IsOfPastHour (release_lock b)
  release_lock-IsOfPastHour true = (tt, tt)
  release_lock-IsOfPastHour false = tt

  rollup_hours-IsOfPastHour :
      (i n : ℕ)
      → (i + n + 1) * hour_ms ≤ now
      → All IsOfPastHour (rollup_hours points (previous_hour_start now) i n)
  unfolding rollup_hours
  rollup_hours-IsOfPastHour i zero h = tt
  rollup_hours-IsOfPastHour i (suc n) h =
      All-append IsOfPastHour (rollup_hour points (previous_hour_start now - i * hour_ms))
        (rollup_hours points (previous_hour_start now) (suc i) n)
        (rollup_hour-IsOfPastHour i (omega arith))
        (rollup_hours-IsOfPastHour (suc i) n (omega arith))

  -- A catch-up over some hours, on a clock that is past as many and one more, reads only whole hours
  -- that are over, and each rollup it records is aggregated from all the points of one such hour.
  pub run_catchup-IsOfPastHour :
      (hours : ℕ) (lock : Option (Result Bool)) (can_release : Bool)
      → (hours + 1) * hour_ms ≤ now
      → All IsOfPastHour (run_catchup points now hours lock can_release)
  unfolding run_catchup
  run_catchup-IsOfPastHour hours lock can_release h = elim (Bool-cases (acquire lock)) [
    | inl held ↦ rw held (
        All-append IsOfPastHour (rollup_hours points (previous_hour_start now) 0 hours)
          (release_lock can_release) (rollup_hours-IsOfPastHour 0 hours (omega arith))
          (release_lock-IsOfPastHour can_release))
    | inr free ↦ rw free tt
  ]
