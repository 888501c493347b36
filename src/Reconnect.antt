-- ===== src/Reconnect.antt =====
-- main/network/reconnect.c: exponential backoff with jitter.
pub mod Backoff
mod Tests
use esp32_deskflow.Prelude.{
  ℕ, ◌+◌, ◌*◌, ◌%◌, Bool, true, ◌||◌, ltb, if◌then◌else◌, u32, ◌<<<◌, ℤ, pos, negsuc, ltb_ℤ, zero,
  suc, ◌-◌, ◌^◌, u8_of_int,
}

-- `reconnect_t`
pub record Reconnect : Type 0 where
  pub max_retries : ℤ
  pub base_delay_ms : ℕ
  pub max_delay_ms : ℕ
  pub jitter_ms : ℕ
  pub retry_count : ℤ

abbrev pub reconnect_infinite_retries : ℤ
reconnect_infinite_retries = negsuc 0

abbrev pub reconnect_base_delay_ms : ℕ
reconnect_base_delay_ms = 1000

abbrev pub reconnect_max_delay_ms : ℕ
reconnect_max_delay_ms = 60000

abbrev pub reconnect_jitter_ms : ℕ
reconnect_jitter_ms = 5000

unfoldable pub reconnect_init : Reconnect
reconnect_init = record {
  max_retries = reconnect_infinite_retries;
  base_delay_ms = reconnect_base_delay_ms;
  max_delay_ms = reconnect_max_delay_ms;
  jitter_ms = reconnect_jitter_ms;
  retry_count = pos 0;
}

unfoldable pub reconnect_reset : Reconnect → Reconnect
reconnect_reset rc = record rc { retry_count = pos 0 }

-- The delay before the jitter: `base << shift` in 32 bits, capped.
unfoldable pub backoff : Reconnect → ℕ
backoff rc =
    let shift = if ltb_ℤ rc.retry_count (pos 30) then u8_of_int rc.retry_count else 30 in
    let delay = u32 (rc.base_delay_ms * u32 (1 <<< shift)) in
    if ltb rc.max_delay_ms delay then rc.max_delay_ms else delay

-- `++` on an int. The overflow, which C leaves undefined, wraps around as the processor's addition does.
abbrev pub int_succ : ℤ → ℤ
int_succ (pos n) = if ltb (n + 1) (2 ^ 31) then pos (n + 1) else negsuc (2 ^ 31 - 1)
int_succ (negsuc zero) = pos 0
int_succ (negsuc (suc n)) = negsuc n

-- `random` is what `esp_random()` returns in the call. The result is the delay.
unfoldable pub reconnect_delay : ℕ → Reconnect → ℕ × Reconnect
unfolding backoff
reconnect_delay random rc =
    let delay = backoff rc in
    let delay' = if ltb 0 rc.jitter_ms then u32 (delay + random % rc.jitter_ms) else delay in
    (delay', record rc { retry_count = int_succ rc.retry_count })

unfoldable pub reconnect_should_retry : Reconnect → Bool
reconnect_should_retry rc = ltb_ℤ rc.max_retries (pos 0) || ltb_ℤ rc.retry_count rc.max_retries
