-- ===== src/Client/LifecycleTests.antt =====
-- Making and destroying a client of main/barrier/barrier_client.c at concrete inputs.
use esp32_deskflow.Prelude.{◌≡◌, refl, true, false, if◌then◌else◌}
use esp32_deskflow.Esp.{fault}
use esp32_deskflow.Client.Lifecycle.{
  no_parts, Making, tud_hid_report_complete_cb, barrier_client_create, barrier_client_start,
  barrier_client_task_begin, barrier_client_destroy,
}
use esp32_deskflow.Client.Released.{
  made, succeeds, barrier_client_create_lem, barrier_client_destroy_lem,
}

abbrev granted : Making
granted = record {
  client_allocated = true;
  tls_created = true;
  actuator_allocated = true;
  queue_created = true;
  task_created = true;
}

-- hid_task cannot be created.
abbrev without_task : Making
without_task = record granted { task_created = false }

barrier_client_create_lem_example :
    barrier_client_create without_task no_parts
    ≡ (succeeds without_task, if succeeds without_task then made else no_parts)
barrier_client_create_lem_example = barrier_client_create_lem without_task

barrier_client_destroy_lem_example :
    (let client = (barrier_client_create granted no_parts).1 in
      let started = barrier_client_task_begin (barrier_client_start true client).1 in
      let destroyed = barrier_client_destroy true started in
      (destroyed
        ≡ record no_parts { g_hid_task_handle = true; client_tasks = if true then 0 else 1 })
      × (tud_hid_report_complete_cb destroyed ≡ fault))
barrier_client_destroy_lem_example = barrier_client_destroy_lem granted true refl
