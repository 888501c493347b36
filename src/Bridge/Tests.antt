-- ===== src/Bridge/Tests.antt =====
-- The web socket of main/web/web_server.c for the UART at concrete inputs.
use esp32_deskflow.Prelude.{◌+◌, ◌*◌, ◌≡◌, refl, pos, true, false, [], ◌∷◌, length, some, List}
use esp32_deskflow.Esp.{esp_ok, esp_fail}
use esp32_deskflow.Bridge.{
  Bridge, g_ws_ctx_init, Queueing, uart_data, timeout, Frame, Step, frame, sender, job, step, steps,
}
use esp32_deskflow.Bridge.Senders.{blocks_owned, two_senders}

abbrev first_frame : Frame
first_frame = record {
  fd = pos 54;
  in_time = true;
  task_created = true;
  length_received = esp_ok;
  len = 2;
  buf_allocated = true;
  payload_received = esp_ok;
  is_data = true;
  payload = 104 ∷ 105 ∷ [];
}

abbrev accepted : Queueing
accepted = record { arg_allocated = true; data_allocated = true; queued = esp_ok }

-- A frame to the UART, bytes from it, bytes that cannot be queued, and the first work.
abbrev exchange : List Step
exchange =
    frame first_frame
    ∷ sender accepted (uart_data (some (1 ∷ 2 ∷ [])))
    ∷ sender accepted (uart_data (some (3 ∷ [])))
    ∷ sender (record accepted { queued = esp_fail }) (uart_data (some (4 ∷ [])))
    ∷ job
    ∷ []

blocks_owned_example : (let b = steps exchange g_ws_ctx_init in b.blocks ≡ length b.jobs * 2)
blocks_owned_example = blocks_owned exchange

one_left : length (steps exchange g_ws_ctx_init).jobs ≡ 1
unfolding step g_ws_ctx_init
one_left = refl

abbrev connected : Bridge
connected = record {
  fd = pos 54;
  running = true;
  sender_task = true;
  tasks = 1;
  jobs = [];
  blocks = 0;
  frames = [];
  uart_out = [];
}

-- Another browser's first frame.
abbrev other_frame : Frame
other_frame = record first_frame { fd = pos 55; in_time = false; len = 0 }

two_senders_example :
    (steps
      (frame other_frame ∷ sender accepted timeout ∷ sender accepted timeout ∷ [])
      connected).tasks
    ≡ connected.tasks + 1
two_senders_example =
    two_senders other_frame connected (sender accepted timeout ∷ sender accepted timeout ∷ []) refl
      refl refl refl refl refl tt
