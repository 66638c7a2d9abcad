-- ===== src/Admin/Rollup.antt =====
-- services/gateway-metrics-rollup.service.ts: the hourly rollups of the metrics. What the lock
-- answers, the clock and the repository are arguments; a run is the list of its calls.
pub mod Windows
mod Tests
use nestjs_amqp.Prelude.{
  ℕ, zero, suc, ◌+◌, ◌-◌, ◌*◌, ◌/◌, Bool, true, false, Option, none, some, List, [], ◌∷◌, ◌++◌,
  if◌then◌else◌, ltb,
}
use nestjs_amqp.Prelude.Result.{Result, ok, err}
use nestjs_amqp.Admin.Metrics.{Point, Group, aggregate_rollups}

abbrev pub hour_ms : ℕ
hour_ms = 3600000

abbrev boot_catchup_hours : ℕ
boot_catchup_hours = 3

pub data RollupCall : Type 0 where
  reads : (from to : ℕ) → RollupCall
  records : List Group → RollupCall
  releases : RollupCall

-- no lock configured, or what `tryAcquire` answers; an error counts as acquired
abbrev acquire : Option (Result Bool) → Bool
acquire none = true
acquire (some (ok held)) = held
acquire (some (err e)) = true

unfoldable pub previous_hour_start : ℕ → ℕ
previous_hour_start now = now / hour_ms * hour_ms - hour_ms

abbrev after_points : Result (List Point) → List RollupCall
after_points (err e) = []
after_points (ok []) = []
after_points (ok (p ∷ ps)) = records (aggregate_rollups (p ∷ ps) hour_ms) ∷ []

-- a lock that can be released
abbrev release_lock : Bool → List RollupCall
release_lock true = releases ∷ []
release_lock false = []

module _ (points : ℕ → ℕ → Result (List Point)) where
  unfoldable pub rollup_hour : ℕ → List RollupCall
  rollup_hour start =
      reads start (start + hour_ms - 1) ∷ after_points (points start (start + hour_ms - 1))

  unfoldable pub rollup : ℕ → Option (Result Bool) → Bool → List RollupCall
  rollup now lock can_release =
      if acquire lock then rollup_hour (previous_hour_start now) ++ release_lock can_release else []

  -- the rounds of the loop from `i` on
  unfoldable pub rollup_hours : ℕ → ℕ → ℕ → List RollupCall
  rollup_hours base i zero = []
  rollup_hours base i (suc n) = rollup_hour (base - i * hour_ms) ++ rollup_hours base (suc i) n

  unfoldable pub run_catchup : ℕ → ℕ → Option (Result Bool) → Bool → List RollupCall
  run_catchup now hours lock can_release =
      if acquire lock
      then rollup_hours (previous_hour_start now) 0 hours ++ release_lock can_release
      else []

  -- what the start of an instance runs at once
  unfoldable pub on_application_bootstrap : Bool → ℕ → Option (Result Bool) → Bool → List RollupCall
  on_application_bootstrap enabled now lock can_release =
      if enabled then run_catchup now boot_catchup_hours lock can_release else []
