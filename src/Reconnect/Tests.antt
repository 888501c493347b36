-- ===== src/Reconnect/Tests.antt =====
-- The theorems on the backoff at concrete inputs.
use esp32_deskflow.Prelude.{◌≡◌, ◌+◌, ◌%◌, ℕ, List, refl, arith, true, [], ◌∷◌, replicate, length}
use esp32_deskflow.Reconnect.{reconnect_init, reconnect_delay, reconnect_should_retry}
use esp32_deskflow.Reconnect.Backoff.{after_failures, schedule, backoff_schedule}

abbrev three : List ℕ
three = 1 ∷ 2 ∷ 3 ∷ []

backoff_schedule_example :
    ((reconnect_delay 12345 (after_failures three reconnect_init)).0
      ≡ schedule (length three) + 12345 % 5000)
    × (reconnect_should_retry (after_failures three reconnect_init) ≡ true)
backoff_schedule_example = backoff_schedule three 12345 (omega arith)

fourth_delay : (reconnect_delay 12345 (after_failures three reconnect_init)).0 ≡ 10345
unfolding reconnect_init reconnect_delay after_failures
fourth_delay = refl

-- The 31st delay is the jitter alone.
late_delay : (reconnect_delay 12345 (after_failures (replicate 30 7) reconnect_init)).0 ≡ 2345
unfolding reconnect_init reconnect_delay after_failures
late_delay = refl
