-- ===== src/Client/Lifecycle.antt =====
-- Making and destroying a client: the last functions of main/barrier/barrier_client.c, with those of
-- main/tusb/tusb_actuator.c that start and stop hid_task, and the handle that main/tusb/tusb_device.c keeps
-- of that task.
use esp32_deskflow.Prelude.{ℕ, ◌+◌, ◌-◌, Bool, true, false, not, if◌then◌else◌}
use esp32_deskflow.Esp.{
  EspErr, esp_ok, esp_fail, esp_err_invalid_arg, is_ok, esp_err_invalid_state, Outcome, done, fault,
}

-- What exists: the client, its TLS client, its actuator, the actuator's queue and hid_task, and the
-- connection tasks; whether `g_hid_task_handle` and the client's `task_handle` are set; and `running`.
pub record Parts : Type 0 where
  pub client : Bool
  pub tls : Bool
  pub actuator : Bool
  pub queue : Bool
  pub hid_task : Bool
  pub g_hid_task_handle : Bool
  pub client_tasks : ℕ
  pub task_handle : Bool
  pub running : Bool

abbrev pub no_parts : Parts
no_parts = record {
  client = false;
  tls = false;
  actuator = false;
  queue = false;
  hid_task = false;
  g_hid_task_handle = false;
  client_tasks = 0;
  task_handle = false;
  running = false;
}

-- Which allocations and creations succeed: the client, the TLS client, the actuator, its queue, hid_task.
pub record Making : Type 0 where
  pub client_allocated : Bool
  pub tls_created : Bool
  pub actuator_allocated : Bool
  pub queue_created : Bool
  pub task_created : Bool

-- `tusb_set_hid_task_handle`
abbrev pub tusb_set_hid_task_handle : Bool → Parts → Parts
tusb_set_hid_task_handle handle p = record p { g_hid_task_handle = handle }

unfoldable pub actuator_hid_task_start : Bool → Parts → EspErr × Parts
actuator_hid_task_start created p = if p.hid_task then (esp_err_invalid_arg, p) else (
  if created then esp_ok else esp_fail,
  tusb_set_hid_task_handle created (record p { hid_task = created }),
)

-- `actuator_hid_task_stop` on an actuator that is not null.
unfoldable pub actuator_hid_task_stop : Parts → Parts
actuator_hid_task_stop p = record p { hid_task = false; queue = false }

-- `tud_hid_report_complete_cb`: whether hid_task is notified; a handle of a deleted task is not valid.
unfoldable pub tud_hid_report_complete_cb : Parts → Outcome Bool
tud_hid_report_complete_cb p =
    if p.g_hid_task_handle then (if p.hid_task then done true else fault) else done false

-- `barrier_client_create`: whether the client is not null. config_get_current is not null, and
-- tusb_actuator_init fails when its queue cannot be created. The two commands that are queued before
-- hid_task starts, and the fields that are filled in at the end, are left out.
unfoldable pub barrier_client_create : Making → Parts → Bool × Parts
unfolding actuator_hid_task_start actuator_hid_task_stop
barrier_client_create m p =
    if not m.client_allocated
    then (false, p)
    else let p = record p { client = true } in
      if not m.tls_created
      then (false, record p { client = false })
      else let p = record p { tls = true } in
        if not m.actuator_allocated
        then (false, record p { tls = false; client = false })
        else let p = record p { actuator = true } in
          if not m.queue_created
          then (false, record p { actuator = false; tls = false; client = false })
          else let (err, p) = actuator_hid_task_start m.task_created (record p { queue = true }) in
            if not (is_ok err)
            then (
              false,
              record (actuator_hid_task_stop p) { actuator = false; tls = false; client = false },
            )
            else (true, record p { running = false })

-- `barrier_client_start` on a client that is not null, with the result of xTaskCreatePinnedToCore.
unfoldable pub barrier_client_start : Bool → Parts → EspErr × Parts
barrier_client_start created p =
    if p.running
    then (esp_err_invalid_state, p)
    else if created
    then (esp_ok, record p { task_handle = true; client_tasks = p.client_tasks + 1 })
    else (esp_fail, record p { task_handle = false })

-- The first statements of `barrier_client_task`.
unfoldable pub barrier_client_task_begin : Parts → Parts
barrier_client_task_begin p = record p { running = true }

-- `barrier_client_stop` on a client that is not null, with whether the task has ended within the 500 ms.
unfoldable pub barrier_client_stop : Bool → Parts → Parts
barrier_client_stop in_time p =
    let p = record p { running = false } in
    if p.task_handle
    then record p {
      task_handle = false;
      client_tasks = if in_time then p.client_tasks - 1 else p.client_tasks;
    }
    else p

-- `barrier_client_destroy` on a client that is not null.
unfoldable pub barrier_client_destroy : Bool → Parts → Parts
unfolding barrier_client_stop actuator_hid_task_stop
barrier_client_destroy in_time p = record (actuator_hid_task_stop (barrier_client_stop in_time p)) {
  tls = false;
  actuator = false;
  client = false;
}
