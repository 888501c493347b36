-- ===== src/Reconnect/Backoff.antt =====
-- The delays that reconnect.c gives from its default parameters on.
use esp32_deskflow.Prelude.{
  ℕ, ◌+◌, ◌-◌, ◌*◌, ◌%◌, ◌^◌, ◌≤◌, ◌<◌, ◌≡◌, refl, ap, ◌∙◌, true, arith, min, ==_iff, ◌==◌, List,
  [], ◌∷◌, length, ltb, if◌then◌else◌, holds_below, holds_below_at, pos, negsuc, Bool-cases, inl,
  inr,
}
use esp32_deskflow.Reconnect.{
  Reconnect, reconnect_init, backoff, reconnect_delay, reconnect_should_retry,
}

-- The parameters behind failed attempts, with the random number of each delay.
unfoldable pub after_failures : List ℕ → Reconnect → Reconnect
unfolding reconnect_delay
after_failures [] rc = rc
after_failures (random ∷ randoms) rc = after_failures randoms (reconnect_delay random rc).1

-- The parameters of `reconnect_init`, at any count.
abbrev at_count : ℕ → Reconnect
at_count n = record {
  max_retries = negsuc 0;
  base_delay_ms = 1000;
  max_delay_ms = 60000;
  jitter_ms = 5000;
  retry_count = pos n;
}

delay-at_count :
    (random n : ℕ) → n + 1 < 2 ^ 31 → (reconnect_delay random (at_count n)).1 ≡ at_count (n + 1)
unfolding reconnect_delay
delay-at_count random n small =
    let inside : ltb (n + 1) (2 ^ 31) ≡ true = ground arith in
    ap (λ c. record (at_count n) { retry_count = if c then pos (n + 1) else negsuc (2 ^ 31 - 1) })
      inside

after_failures-at_count :
    (randoms : List ℕ) (n : ℕ)
    → n + length randoms < 2 ^ 31
    → after_failures randoms (at_count n) ≡ at_count (n + length randoms)
unfolding after_failures
after_failures-at_count [] n small = ap at_count (omega arith)
after_failures-at_count (random ∷ randoms) n small =
    ap (after_failures randoms) (delay-at_count random n (omega arith))
    ∙ after_failures-at_count randoms (n + 1) (omega arith)
    ∙ ap at_count (omega arith)

doubling_table : holds_below (λ n. backoff (at_count n) == min (1000 * 2 ^ n) 60000) 29 ≡ true
unfolding backoff holds_below
doubling_table = refl

-- The delay before the jitter: doubled up to the maximum, and nothing from the 30th attempt on, where
-- the shifted base is 0 in 32 bits.
abbrev pub schedule : ℕ → ℕ
schedule n = if ltb n 29 then min (1000 * 2 ^ n) 60000 else 0

early_delay :
    (n random : ℕ)
    → n < 29
    → (reconnect_delay random (at_count n)).0 ≡ min (1000 * 2 ^ n) 60000 + random % 5000
unfolding reconnect_delay
early_delay n random h = omega (arith, (==_iff _ _).0 (holds_below_at _ 29 doubling_table n h))

late_delay : (n random : ℕ) → 29 ≤ n → (reconnect_delay random (at_count n)).0 ≡ random % 5000
unfolding reconnect_delay backoff
late_delay n random h = ground arith

delay-schedule :
    (n random : ℕ) → (reconnect_delay random (at_count n)).0 ≡ schedule n + random % 5000
delay-schedule n random = elim (Bool-cases (ltb n 29)) [
  | inl early ↦ rw early (early_delay n random (ground (arith, early)))
  | inr late ↦ rw late (late_delay n random (ground (arith, late)) ∙ omega arith)
]

-- Behind any number of failed attempts below 2^31 - 1 since reconnect_init, another attempt is allowed,
-- and its delay is the schedule's plus the random number modulo 5000: 1000 ms doubled with each failure
-- and at most 60000 ms for the first 29 delays, and 0 ms from the 30th on.
pub backoff_schedule :
    (randoms : List ℕ) (random : ℕ)
    → length randoms + 1 < 2 ^ 31
    → ((reconnect_delay random (after_failures randoms reconnect_init)).0
        ≡ schedule (length randoms) + random % 5000)
      × (reconnect_should_retry (after_failures randoms reconnect_init) ≡ true)
unfolding reconnect_init reconnect_should_retry
backoff_schedule randoms random small =
    let counted = after_failures-at_count randoms 0 (omega arith) in
    (
      ap (λ rc. (reconnect_delay random rc).0) counted
          ∙ delay-schedule (0 + length randoms) random
          ∙ ap (λ n. schedule n + random % 5000) (omega arith),
      ap reconnect_should_retry counted,
    )
