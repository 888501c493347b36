-- ===== src/Client/Released.antt =====
-- What barrier_client_create and barrier_client_destroy of main/barrier/barrier_client.c leave.
use esp32_deskflow.Prelude.{◌≡◌, ap, ◌∙◌, arith, Bool, true, ◌&&◌, if◌then◌else◌}
use esp32_deskflow.Esp.{fault}
use esp32_deskflow.Client.Lifecycle.{
  Parts, no_parts, Making, actuator_hid_task_start, actuator_hid_task_stop,
  tud_hid_report_complete_cb, barrier_client_create, barrier_client_start,
  barrier_client_task_begin, barrier_client_stop, barrier_client_destroy,
}

-- A client with all its parts.
abbrev pub made : Parts
made = record no_parts {
  client = true;
  tls = true;
  actuator = true;
  queue = true;
  hid_task = true;
  g_hid_task_handle = true;
}

-- Everything can be had.
abbrev pub succeeds : Making → Bool
succeeds m =
    m.client_allocated
    && (m.tls_created && (m.actuator_allocated && (m.queue_created && m.task_created)))

-- barrier_client_create returns a client with all its parts when every allocation and creation succeeds;
-- wherever one fails, it returns null and nothing that it made is left.
pub barrier_client_create_lem :
    (m : Making)
    → barrier_client_create m no_parts ≡ (succeeds m, if succeeds m then made else no_parts)
unfolding barrier_client_create actuator_hid_task_start actuator_hid_task_stop
barrier_client_create_lem m = ground arith

-- A client that was made, started and is running, destroyed: everything is released, but the connection
-- task if it does not end within 500 ms, and the handle of hid_task, through which the next completed
-- report notifies a deleted task.
pub barrier_client_destroy_lem :
    (m : Making) (in_time : Bool)
    → succeeds m ≡ true
    → (let client = (barrier_client_create m no_parts).1 in
        let started = barrier_client_task_begin (barrier_client_start true client).1 in
        let destroyed = barrier_client_destroy in_time started in
        (destroyed
          ≡ record no_parts { g_hid_task_handle = true; client_tasks = if in_time then 0 else 1 })
        × (tud_hid_report_complete_cb destroyed ≡ fault))
unfolding barrier_client_start barrier_client_task_begin barrier_client_destroy barrier_client_stop
    actuator_hid_task_stop tud_hid_report_complete_cb
barrier_client_destroy_lem m in_time all =
    let client : (barrier_client_create m no_parts).1 ≡ made =
      ap (λ (r : Bool × Parts). r.1) (barrier_client_create_lem m)
      ∙ ap (λ c. if c then made else no_parts) all in
    let end_ = λ (p : Parts).
      barrier_client_destroy in_time (barrier_client_task_begin (barrier_client_start true p).1) in
    (ap end_ client, ap (λ p. tud_hid_report_complete_cb (end_ p)) client)
