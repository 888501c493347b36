-- ===== src/Bridge/Owned.antt =====
-- The memory and the sender tasks of the web socket in main/web/web_server.c.
use esp32_deskflow.Prelude.{
  ℕ, ◌*◌, ◌==◌, ◌≡◌, refl, arith, inl, inr, ℤ, eqb_ℤ, Bool, true, false, not, List, [], ◌∷◌, length,
  length-append, if◌then◌else◌, Bool-cases,
}
use esp32_deskflow.Esp.{EspErr}
use esp32_deskflow.Grove.{grove_uart_read}
use esp32_deskflow.Bridge.{
  Job, Bridge, uart_ws_async_send, Queueing, uart_ws_queue_send, Received, timeout, other,
  uart_data, sent_on, data_sent, ended_unless_running, uart_ws_sender_round, uart_ws_cleanup, Frame,
  uart_ws_connect, uart_ws_frame, framed, uart_ws_handler, next_job, Step, frame, sender, job, step,
  steps,
}

-- Each queued work owns its argument and its bytes, and nothing else is in use.
abbrev pub IsOwned : Bridge → Type 0
IsOwned b = b.blocks ≡ length b.jobs * 2

queue_send-IsOwned :
    (q : Queueing) (fd : ℤ) (bytes : List ℕ) (b : Bridge)
    → IsOwned b
    → IsOwned (uart_ws_queue_send q fd bytes b).1
unfolding uart_ws_queue_send
queue_send-IsOwned q fd bytes b h =
    ground (arith, length-append b.jobs (record { fd = fd; bytes = bytes } ∷ []))

cleanup-IsOwned : (in_time : Bool) (b : Bridge) → IsOwned b → IsOwned (uart_ws_cleanup in_time b)
unfolding uart_ws_cleanup
cleanup-IsOwned in_time b h = ground arith

connect-IsOwned : (f : Frame) (b : Bridge) → IsOwned b → IsOwned (uart_ws_connect f b).1
unfolding uart_ws_connect uart_ws_cleanup
connect-IsOwned f b h = ground arith

frame-IsOwned : (f : Frame) (b : Bridge) → IsOwned b → IsOwned (uart_ws_frame f b).1
unfolding uart_ws_frame uart_ws_cleanup
frame-IsOwned f b h = ground arith

sent_on-IsOwned :
    (q : Queueing) (bytes : List ℕ) (b : Bridge) → IsOwned b → IsOwned (sent_on q bytes b)
sent_on-IsOwned q [] b h = h
sent_on-IsOwned q (c ∷ bytes) b h = queue_send-IsOwned q b.fd (c ∷ bytes) b h

data_sent-IsOwned :
    (q : Queueing) (received : Received) (b : Bridge) → IsOwned b → IsOwned (data_sent q received b)
data_sent-IsOwned q timeout b h = h
data_sent-IsOwned q other b h = h
data_sent-IsOwned q (uart_data bytes) b h = sent_on-IsOwned q (grove_uart_read bytes) b h

ended-IsOwned : (b : Bridge) → IsOwned b → IsOwned (ended_unless_running b)
ended-IsOwned b h = ground arith

framed-IsOwned : (f : Frame) (r : Bool × Bridge) → IsOwned r.1 → IsOwned (framed f r).1
framed-IsOwned f (true, b) h = frame-IsOwned f b h
framed-IsOwned f (false, b) h = h

-- What both branches have.
pub either_branch :
    (P : EspErr × Bridge → Type 0) (test : Bool) (r s : EspErr × Bridge)
    → P r
    → P s
    → P (if test then r else s)
either_branch P true r s hr hs = hr
either_branch P false r s hr hs = hs

handler-IsOwned : (f : Frame) (b : Bridge) → IsOwned b → IsOwned (uart_ws_handler f b).1
unfolding uart_ws_handler
handler-IsOwned f b h =
    either_branch (λ (r : EspErr × Bridge). IsOwned r.1) (not (eqb_ℤ f.fd b.fd))
      (framed f (uart_ws_connect f b)) (uart_ws_frame f b)
      (framed-IsOwned f (uart_ws_connect f b) (connect-IsOwned f b h)) (frame-IsOwned f b h)

next_job-IsOwned :
    (jobs : List Job) (b : Bridge)
    → b.blocks ≡ length jobs * 2
    → b.jobs ≡ jobs
    → IsOwned (next_job jobs b)
unfolding uart_ws_async_send
next_job-IsOwned [] b h same = rw same h
next_job-IsOwned (j ∷ jobs) b h same = omega (arith, h)

step-IsOwned : (s : Step) (b : Bridge) → IsOwned b → IsOwned (step s b)
unfolding step uart_ws_sender_round
step-IsOwned (frame f) b h = handler-IsOwned f b h
step-IsOwned (sender q received) b h = elim (Bool-cases (b.tasks == 0)) [
  | inl none_left ↦ rw none_left h
  | inr some_left ↦
      rw some_left (ended-IsOwned (data_sent q received b) (data_sent-IsOwned q received b h))
]
step-IsOwned job b h = next_job-IsOwned b.jobs b h refl

pub steps-IsOwned : (rest : List Step) (b : Bridge) → IsOwned b → IsOwned (steps rest b)
steps-IsOwned [] b h = h
steps-IsOwned (s ∷ rest) b h = steps-IsOwned rest (step s b) (step-IsOwned s b h)
