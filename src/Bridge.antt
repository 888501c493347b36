-- ===== src/Bridge.antt =====
-- The web socket of main/web/web_server.c that connects a browser to the UART of the Grove connector: the
-- handler of its frames, the task that sends, and the work that is queued for the server's thread.
pub mod Owned
mod Senders
mod Tests
use esp32_deskflow.Prelude.{
  ℕ, zero, suc, ◌+◌, ◌-◌, ℤ, pos, negsuc, eqb_ℤ, Bool, true, false, not, ◌==◌, List, [], ◌∷◌, ◌++◌,
  length, if◌then◌else◌, Option, none, some,
}
use esp32_deskflow.Esp.{EspErr, esp_ok, esp_err_no_mem, is_ok}
use esp32_deskflow.Grove.{grove_uart_read}

-- `async_ws_send_arg_t` without the server's handle; the length is that of the bytes.
pub record Job : Type 0 where
  pub fd : ℤ
  pub bytes : List ℕ

-- `g_ws_ctx` without the server's handle, with `sender_task` as "is not null"; the sender tasks that
-- exist; the queued work; the blocks of the heap that are in use; the frames that were handed to
-- httpd_ws_send_frame_async, and the bytes that were handed to the UART.
pub record Bridge : Type 0 where
  pub fd : ℤ
  pub running : Bool
  pub sender_task : Bool
  pub tasks : ℕ
  pub jobs : List Job
  pub blocks : ℕ
  pub frames : List Job
  pub uart_out : List (List ℕ)

-- The static variables before the first call.
unfoldable pub g_ws_ctx_init : Bridge
g_ws_ctx_init = record {
  fd = pos 0;
  running = false;
  sender_task = false;
  tasks = 0;
  jobs = [];
  blocks = 0;
  frames = [];
  uart_out = [];
}

-- `malloc` and `calloc` that succeed, and `free`.
abbrev pub allocated : Bridge → Bridge
allocated b = record b { blocks = b.blocks + 1 }

abbrev pub freed : Bridge → Bridge
freed b = record b { blocks = b.blocks - 1 }

-- `uart_ws_async_send` on the work that comes next; whatever sending returns, the two blocks are freed.
unfoldable pub uart_ws_async_send : Job → Bridge → Bridge
uart_ws_async_send job b = freed (freed (record b { frames = b.frames ++ job ∷ [] }))

-- What sending meets: the two allocations and httpd_queue_work.
pub record Queueing : Type 0 where
  pub arg_allocated : Bool
  pub data_allocated : Bool
  pub queued : EspErr

unfoldable pub uart_ws_queue_send : Queueing → ℤ → List ℕ → Bridge → EspErr × Bridge
uart_ws_queue_send q fd bytes b =
    if not q.arg_allocated
    then (esp_err_no_mem, b)
    else let b = allocated b in
      if not q.data_allocated
      then (esp_err_no_mem, freed b)
      else let b = allocated b in
        if is_ok q.queued
        then (esp_ok, record b { jobs = b.jobs ++ record { fd = fd; bytes = bytes } ∷ [] })
        else (q.queued, freed (freed b))

-- What xQueueReceive gives within 100 ms: nothing, an event of another type, or UART_DATA with the bytes
-- that uart_read_bytes then has.
pub data Received : Type 0 where
  timeout other : Received
  uart_data : Option (List ℕ) → Received

abbrev pub sent_on : Queueing → List ℕ → Bridge → Bridge
sent_on q [] b = b
sent_on q (c ∷ bytes) b = (uart_ws_queue_send q b.fd (c ∷ bytes) b).1

abbrev pub data_sent : Queueing → Received → Bridge → Bridge
data_sent q timeout b = b
data_sent q other b = b
data_sent q (uart_data bytes) b = sent_on q (grove_uart_read bytes) b

abbrev pub ended_unless_running : Bridge → Bridge
ended_unless_running b = if b.running then b else record b { tasks = b.tasks - 1 }

-- One round of `uart_ws_sender_task` from where it waits: the body, and the test of the loop, behind which
-- it waits again or the task ends. The first test passes, since `running` is set before the task is
-- created.
unfoldable pub uart_ws_sender_round : Queueing → Received → Bridge → Bridge
unfolding grove_uart_read uart_ws_queue_send
uart_ws_sender_round q received b = ended_unless_running (data_sent q received b)

-- `uart_ws_cleanup`, with whether the sender has seen `running` within the 50 ms that it waits.
unfoldable pub uart_ws_cleanup : Bool → Bridge → Bridge
uart_ws_cleanup in_time b =
    if b.sender_task
    then record b {
      fd = negsuc 0;
      running = false;
      sender_task = false;
      tasks = if in_time then b.tasks - 1 else b.tasks;
    }
    else record b { fd = negsuc 0 }

-- What a call of the handler meets: the socket, whether the sender is in time in a clean-up, xTaskCreate,
-- the two calls of httpd_ws_recv_frame with the length, whether the frame is of text or bytes, its
-- payload, and malloc.
pub record Frame : Type 0 where
  pub fd : ℤ
  pub in_time : Bool
  pub task_created : Bool
  pub length_received : EspErr
  pub len : ℕ
  pub buf_allocated : Bool
  pub payload_received : EspErr
  pub is_data : Bool
  pub payload : List ℕ

-- The head of `uart_ws_handler` on a new connection: whether the task was created.
unfoldable pub uart_ws_connect : Frame → Bridge → Bool × Bridge
unfolding uart_ws_cleanup
uart_ws_connect f b =
    let b = record (uart_ws_cleanup f.in_time b) { fd = f.fd; running = true } in
    if f.task_created
    then (true, record b { sender_task = true; tasks = b.tasks + 1 })
    else (false, record b { running = false })

-- The rest of `uart_ws_handler`, on the frame.
unfoldable pub uart_ws_frame : Frame → Bridge → EspErr × Bridge
unfolding uart_ws_cleanup
uart_ws_frame f b =
    if not (is_ok f.length_received)
    then (f.length_received, if eqb_ℤ f.fd b.fd then uart_ws_cleanup f.in_time b else b)
    else if f.len == 0
    then (esp_ok, b)
    else if not f.buf_allocated
    then (esp_err_no_mem, uart_ws_cleanup f.in_time b)
    else let b = allocated b in
      if not (is_ok f.payload_received)
      then (f.payload_received, uart_ws_cleanup f.in_time (freed b))
      else (
        esp_ok,
        freed (if f.is_data then record b { uart_out = b.uart_out ++ f.payload ∷ [] } else b),
      )

abbrev pub framed : Frame → Bool × Bridge → EspErr × Bridge
framed f (true, b) = uart_ws_frame f b
framed f (false, b) = (esp_err_no_mem, b)

unfoldable pub uart_ws_handler : Frame → Bridge → EspErr × Bridge
unfolding uart_ws_connect uart_ws_frame
uart_ws_handler f b =
    if not (eqb_ℤ f.fd b.fd) then framed f (uart_ws_connect f b) else uart_ws_frame f b

-- The server's thread takes the work that was queued first.
abbrev pub next_job : List Job → Bridge → Bridge
next_job [] b = b
next_job (job ∷ jobs) b = uart_ws_async_send job (record b { jobs = jobs })

-- What the server's thread and the sender tasks do, one step at a time. A sender round is only run by a
-- sender that exists.
pub data Step : Type 0 where
  frame : Frame → Step
  sender : Queueing → Received → Step
  job : Step

unfoldable pub step : Step → Bridge → Bridge
unfolding uart_ws_handler uart_ws_sender_round uart_ws_async_send
step (frame f) b = (uart_ws_handler f b).1
step (sender q received) b = if b.tasks == 0 then b else uart_ws_sender_round q received b
step job b = next_job b.jobs b

abbrev pub steps : List Step → Bridge → Bridge
steps [] b = b
steps (s ∷ rest) b = steps rest (step s b)
