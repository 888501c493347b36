-- ===== src/Log/Overread.antt =====
-- `esp_log_ws_redirect` of main/main.c with a line longer than its buffer.
use esp32_deskflow.Prelude.{
  ℕ, zero, suc, ◌+◌, ◌-◌, ◌%◌, ◌≤◌, ◌<◌, ◌≡◌, refl, ap, ◌∙◌, inl, inr, arith, true, false, List, [],
  ◌∷◌, ◌++◌, length, take, ◌==◌, length-take_at_most, Bool-cases,
}
use esp32_deskflow.Esp.{done, fault, ◌>>=◌}
use esp32_deskflow.Log.{
  LogRing, Sends, used, log_ring_buf_size, push_loop, esp_log_ws_redirect, drain_if_high,
}
use esp32_deskflow.Log.Clients.{redirect_connected}
use esp32_deskflow.Log.Ring.{IsRing, pushed, pushed-IsRing}
use esp32_deskflow.Log.Queue.{push_connected, full_used}

used-pushed :
    (b : ℕ) (r : LogRing)
    → IsRing r
    → ((r.head + 1) % log_ring_buf_size == r.tail) ≡ false
    → used (pushed b r) ≡ used r + 1
used-pushed b r w room = ground arith

push_loop_fault :
    (len : ℕ) (bytes : List ℕ) (r : LogRing)
    → IsRing r
    → length bytes < len
    → used r + length bytes < log_ring_buf_size - 1
    → push_loop len bytes r ≡ fault
unfolding push_loop
push_loop_fault zero bytes r w longer room = absurd (omega arith)
push_loop_fault (suc len) [] r w longer room =
    elim (Bool-cases ((r.head + 1) % log_ring_buf_size == r.tail)) [
      | inl full ↦ absurd (omega (arith, full_used r w full))
      | inr free ↦ rw free refl
    ]
push_loop_fault (suc len) (b ∷ bytes) r w longer room =
    elim (Bool-cases ((r.head + 1) % log_ring_buf_size == r.tail)) [
      | inl full ↦ absurd (omega (arith, full_used r w full))
      | inr free ↦
          let after = used-pushed b r w free in
          rw free (
            push_loop_fault len bytes (pushed b r) (pushed-IsRing b r w) (omega arith)
              (omega arith))
    ]

-- While a client listens and the ring has room, a log line of more than 256 bytes reads past the end
-- of the buffer: the return value of vsnprintf, the length of the whole line, is taken for the
-- number of bytes in the buffer.
pub redirect_overread :
    (s : Sends) (text stale : List ℕ) (r : LogRing)
    → IsRing r
    → r.connected ≡ true
    → 256 < length text
    → used r + 256 < log_ring_buf_size - 1
    → esp_log_ws_redirect s text stale r ≡ fault
redirect_overread s text stale r w on long room =
    let buf = take 256 (take 255 text ++ 0 ∷ stale) in
    let short : length buf ≤ 256 = length-take_at_most 256 (take 255 text ++ 0 ∷ stale) in
    redirect_connected s text stale r on (omega arith)
    ∙ push_connected s buf (length text) r on
    ∙ ap (λ o. o >>= λ r'. done (drain_if_high s r'))
        (push_loop_fault (length text) buf r w (omega arith) (omega arith))
