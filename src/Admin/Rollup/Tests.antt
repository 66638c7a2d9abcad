-- ===== src/Admin/Rollup/Tests.antt =====
-- The hourly rollups at a concrete input.
use nestjs_amqp.Prelude.{ℕ, true, false, some, List, [], ◌∷◌, ◌≡◌, refl, All, arith}
use nestjs_amqp.Prelude.Result.{Result, ok, err, error}
use nestjs_amqp.Admin.Metrics.{Point}
use nestjs_amqp.Admin.Rollup.{
  reads, releases, rollup_hour, rollup, rollup_hours, run_catchup, previous_hour_start,
  on_application_bootstrap,
}
use nestjs_amqp.Admin.Rollup.Windows.{IsOfPastHour, run_catchup-IsOfPastHour}

abbrev no_points : ℕ → ℕ → Result (List Point)
no_points from to = ok []

-- ten minutes past the fifth hour
abbrev ten_past : ℕ
ten_past = 18600000

boot :
    on_application_bootstrap no_points true ten_past (some (ok true)) true
    ≡ reads 14400000 17999999 ∷ reads 10800000 14399999 ∷ reads 7200000 10799999 ∷ releases ∷ []
unfolding on_application_bootstrap run_catchup rollup_hours rollup_hour previous_hour_start
boot = refl

lock_held_elsewhere : rollup no_points ten_past (some (ok false)) true ≡ []
unfolding rollup
lock_held_elsewhere = refl

lock_unreachable :
    rollup no_points ten_past (some (err (error "Error" "down"))) true
    ≡ reads 14400000 17999999 ∷ releases ∷ []
unfolding rollup rollup_hour previous_hour_start
lock_unreachable = refl

run_catchup-IsOfPastHour_example :
    All (IsOfPastHour no_points ten_past) (run_catchup no_points ten_past 3 (some (ok true)) true)
run_catchup-IsOfPastHour_example =
    run_catchup-IsOfPastHour no_points ten_past 3 (some (ok true)) true (omega arith)
