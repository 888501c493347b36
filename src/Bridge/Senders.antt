-- ===== src/Bridge/Senders.antt =====
-- The sender tasks of the web socket in main/web/web_server.c.
use esp32_deskflow.Prelude.{
  ℕ, ◌+◌, ◌*◌, ◌==◌, ◌≡◌, refl, ap, ◌∙◌, arith, inl, inr, ℤ, eqb_ℤ, Bool, true, false, not, ◌&&◌,
  List, [], ◌∷◌, length, if◌then◌else◌, Bool-cases,
}
use esp32_deskflow.Esp.{EspErr, esp_ok}
use esp32_deskflow.Grove.{grove_uart_read}
use esp32_deskflow.Bridge.{
  Job, Bridge, g_ws_ctx_init, uart_ws_async_send, Queueing, uart_ws_queue_send, Received, timeout,
  other, uart_data, sent_on, data_sent, ended_unless_running, uart_ws_sender_round, uart_ws_cleanup,
  Frame, uart_ws_connect, uart_ws_frame, framed, uart_ws_handler, next_job, Step, frame, sender,
  job, step, steps,
}
use esp32_deskflow.Bridge.Owned.{either_branch, steps-IsOwned}

-- One sender task exists while `sender_task` is set, and it keeps running; otherwise there is none.
abbrev pub IsTasked : Bridge → Type 0
IsTasked b =
    (b.tasks ≡ (if b.sender_task then 1 else 0)) × ((b.sender_task && not b.running) ≡ false)

-- The sender has ended in every clean-up.
abbrev pub InTime : List Step → Type 0
InTime [] = Unit {0}
InTime (frame f ∷ rest) = (f.in_time ≡ true) × InTime rest
InTime (sender q received ∷ rest) = InTime rest
InTime (job ∷ rest) = InTime rest

cleanup-IsTasked :
    (in_time : Bool) (b : Bridge)
    → in_time ≡ true
    → IsTasked b
    → IsTasked (uart_ws_cleanup in_time b)
unfolding uart_ws_cleanup
cleanup-IsTasked in_time b timely h = (ground arith, ground arith)

connect-IsTasked :
    (f : Frame) (b : Bridge) → f.in_time ≡ true → IsTasked b → IsTasked (uart_ws_connect f b).1
unfolding uart_ws_connect uart_ws_cleanup
connect-IsTasked f b timely h = (ground arith, ground arith)

frame-IsTasked :
    (f : Frame) (b : Bridge) → f.in_time ≡ true → IsTasked b → IsTasked (uart_ws_frame f b).1
unfolding uart_ws_frame uart_ws_cleanup
frame-IsTasked f b timely h = (ground arith, ground arith)

framed-IsTasked :
    (f : Frame) (r : Bool × Bridge) → f.in_time ≡ true → IsTasked r.1 → IsTasked (framed f r).1
framed-IsTasked f (true, b) timely h = frame-IsTasked f b timely h
framed-IsTasked f (false, b) timely h = h

handler-IsTasked :
    (f : Frame) (b : Bridge) → f.in_time ≡ true → IsTasked b → IsTasked (uart_ws_handler f b).1
unfolding uart_ws_handler
handler-IsTasked f b timely h =
    either_branch (λ (r : EspErr × Bridge). IsTasked r.1) (not (eqb_ℤ f.fd b.fd))
      (framed f (uart_ws_connect f b)) (uart_ws_frame f b)
      (framed-IsTasked f (uart_ws_connect f b) timely (connect-IsTasked f b timely h))
      (frame-IsTasked f b timely h)

-- What sending leaves alone.
record Same (b c : Bridge) : Type 0 where
  tasks : c.tasks ≡ b.tasks
  sender_task : c.sender_task ≡ b.sender_task
  running : c.running ≡ b.running

same : (b : Bridge) → Same b b
same b = record { tasks = refl; sender_task = refl; running = refl }

queue_send-Same :
    (q : Queueing) (fd : ℤ) (bytes : List ℕ) (b : Bridge)
    → Same b (uart_ws_queue_send q fd bytes b).1
unfolding uart_ws_queue_send
queue_send-Same q fd bytes b = record {
  tasks = ground arith;
  sender_task = ground arith;
  running = ground arith;
}

sent_on-Same : (q : Queueing) (bytes : List ℕ) (b : Bridge) → Same b (sent_on q bytes b)
sent_on-Same q [] b = same b
sent_on-Same q (c ∷ bytes) b = queue_send-Same q b.fd (c ∷ bytes) b

data_sent-Same : (q : Queueing) (received : Received) (b : Bridge) → Same b (data_sent q received b)
data_sent-Same q timeout b = same b
data_sent-Same q other b = same b
data_sent-Same q (uart_data bytes) b = sent_on-Same q (grove_uart_read bytes) b

next_job-Same : (jobs : List Job) (b : Bridge) → Same b (next_job jobs b)
unfolding uart_ws_async_send
next_job-Same [] b = same b
next_job-Same (j ∷ jobs) b = record { tasks = refl; sender_task = refl; running = refl }

Same-IsTasked : (b c : Bridge) → Same b c → IsTasked b → IsTasked c
Same-IsTasked b c s h =
    (ground (arith, s.tasks, s.sender_task), ground (arith, s.running, s.sender_task))

ended-IsTasked :
    (b : Bridge) → (b.tasks == 0) ≡ false → IsTasked b → IsTasked (ended_unless_running b)
ended-IsTasked b some_left h = (ground arith, ground arith)

sender-IsTasked :
    (q : Queueing) (received : Received) (b : Bridge)
    → (b.tasks == 0) ≡ false
    → IsTasked b
    → IsTasked (uart_ws_sender_round q received b)
unfolding uart_ws_sender_round
sender-IsTasked q received b some_left h =
    let s = data_sent-Same q received b in
    ended-IsTasked (data_sent q received b) (ap (λ n. n == 0) s.tasks ∙ some_left)
      (Same-IsTasked b (data_sent q received b) s h)

step-IsTasked : (s : Step) (b : Bridge) → InTime (s ∷ []) → IsTasked b → IsTasked (step s b)
unfolding step
step-IsTasked (frame f) b (timely, _) h = handler-IsTasked f b timely h
step-IsTasked (sender q received) b _ h = elim (Bool-cases (b.tasks == 0)) [
  | inl none_left ↦ rw none_left h
  | inr some_left ↦ rw some_left (sender-IsTasked q received b some_left h)
]
step-IsTasked job b _ h = Same-IsTasked b (next_job b.jobs b) (next_job-Same b.jobs b) h

steps-IsTasked :
    (rest : List Step) (b : Bridge) → InTime rest → IsTasked b → IsTasked (steps rest b)
steps-IsTasked [] b timely h = h
steps-IsTasked (frame f ∷ rest) b (timely, later) h =
    steps-IsTasked rest (step (frame f) b) later (step-IsTasked (frame f) b (timely, tt) h)
steps-IsTasked (sender q received ∷ rest) b later h =
    steps-IsTasked rest (step (sender q received) b) later
      (step-IsTasked (sender q received) b tt h)
steps-IsTasked (job ∷ rest) b later h =
    steps-IsTasked rest (step job b) later (step-IsTasked job b tt h)

-- In any order of frames, sender rounds and queued work from the start on, with every allocation and every
-- call of ESP-IDF failing or not, the blocks of the heap in use are the two of each queued work.
pub blocks_owned :
    (rest : List Step) → (let b = steps rest g_ws_ctx_init in b.blocks ≡ length b.jobs * 2)
unfolding g_ws_ctx_init
blocks_owned rest = steps-IsOwned rest g_ws_ctx_init refl

-- In any order of frames, sender rounds and queued work from the start on, if in every clean-up the sender
-- ends within the 50 ms: one sender task exists while the context names one, and none otherwise.
pub one_sender :
    (rest : List Step)
    → InTime rest
    → (let b = steps rest g_ws_ctx_init in b.tasks ≡ (if b.sender_task then 1 else 0))
unfolding g_ws_ctx_init
one_sender rest timely = (steps-IsTasked rest g_ws_ctx_init timely (refl, refl)).0

-- Rounds of senders and queued work.
abbrev pub Quiet : List Step → Type 0
Quiet [] = Unit {0}
Quiet (frame f ∷ rest) = ⊥
Quiet (sender q received ∷ rest) = Quiet rest
Quiet (job ∷ rest) = Quiet rest

ended-running : (b : Bridge) → b.running ≡ true → ended_unless_running b ≡ b
ended-running b going = rw going refl

sender_kept :
    (q : Queueing) (received : Received) (b : Bridge)
    → b.running ≡ true
    → Same b (step (sender q received) b)
unfolding step uart_ws_sender_round
sender_kept q received b going =
    let s = data_sent-Same q received b in
    elim (Bool-cases (b.tasks == 0)) [
      | inl none_left ↦ rw none_left (same b)
      | inr some_left ↦ rw (some_left, ended-running (data_sent q received b) (s.running ∙ going)) s
    ]

tasks_kept :
    (rest : List Step) (b : Bridge) → Quiet rest → b.running ≡ true → (steps rest b).tasks ≡ b.tasks
unfolding step
tasks_kept [] b quiet going = refl
tasks_kept (frame f ∷ rest) b quiet going = absurd quiet
tasks_kept (sender q received ∷ rest) b quiet going =
    let next = sender_kept q received b going in
    tasks_kept rest (step (sender q received) b) quiet (next.running ∙ going) ∙ next.tasks
tasks_kept (job ∷ rest) b quiet going =
    let s = next_job-Same b.jobs b in
    tasks_kept rest (next_job b.jobs b) quiet (s.running ∙ going) ∙ s.tasks

late_connect :
    (f : Frame) (b : Bridge)
    → b.sender_task ≡ true
    → f.in_time ≡ false
    → f.task_created ≡ true
    → uart_ws_connect f b
      ≡ (true, record b { fd = f.fd; running = true; sender_task = true; tasks = b.tasks + 1 })
unfolding uart_ws_connect uart_ws_cleanup
late_connect f b named late created = rw (uart_ws_connect, named, late, created) refl

empty_frame :
    (f : Frame) (b : Bridge)
    → f.length_received ≡ esp_ok
    → f.len ≡ 0
    → uart_ws_frame f b ≡ (esp_ok, b)
unfolding uart_ws_frame
empty_frame f b received empty = rw (uart_ws_frame, received, empty) refl

-- What the first frame of a new connection does when the sender of the old one is still waiting at the end
-- of the 50 ms, and the frame has no payload.
connected_late :
    (f : Frame) (b : Bridge)
    → eqb_ℤ f.fd b.fd ≡ false
    → b.sender_task ≡ true
    → f.in_time ≡ false
    → f.task_created ≡ true
    → f.length_received ≡ esp_ok
    → f.len ≡ 0
    → (let b' = step (frame f) b in (b'.tasks ≡ b.tasks + 1) × (b'.running ≡ true))
unfolding step uart_ws_handler
connected_late f b new named late created received empty =
    let b1 = record b { fd = f.fd; running = true; sender_task = true; tasks = b.tasks + 1 } in
    let all : uart_ws_handler f b ≡ (esp_ok, b1) =
      ap (λ t. if not t then framed f (uart_ws_connect f b) else uart_ws_frame f b) new
      ∙ ap (framed f) (late_connect f b named late created)
      ∙ empty_frame f b1 received empty in
    (ap (λ (r : EspErr × Bridge). r.1.tasks) all, ap (λ (r : EspErr × Bridge). r.1.running) all)

-- When the sender of the old connection is still waiting for the UART at the end of the 50 ms of the
-- clean-up, a first frame without payload of a new connection adds a second sender task, and no sender
-- ends in any rounds of senders and queued work that follow.
pub two_senders :
    (f : Frame) (b : Bridge) (rest : List Step)
    → eqb_ℤ f.fd b.fd ≡ false
    → b.sender_task ≡ true
    → f.in_time ≡ false
    → f.task_created ≡ true
    → f.length_received ≡ esp_ok
    → f.len ≡ 0
    → Quiet rest
    → (steps (frame f ∷ rest) b).tasks ≡ b.tasks + 1
two_senders f b rest new named late created received empty quiet =
    let late_ = connected_late f b new named late created received empty in
    tasks_kept rest (step (frame f) b) quiet late_.1 ∙ late_.0
