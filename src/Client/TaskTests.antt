-- ===== src/Client/TaskTests.antt =====
-- The connection task at concrete inputs.
use esp32_deskflow.Prelude.{
  ◌+◌, ◌<◌, ◌≡◌, refl, arith, List, [], ◌∷◌, true, false, Bool, some, length, replicate, pos, codes,
}
use esp32_deskflow.Esp.{esp_ok, esp_fail}
use esp32_deskflow.Packet.{Packet}
use esp32_deskflow.Keycodes.{table_us}
use esp32_deskflow.Reconnect.{reconnect_init}
use esp32_deskflow.Config.{config_defaults}
use esp32_deskflow.Tls.{tls_client_create}
use esp32_deskflow.Actuator.{Cmd, tusb_actuator_init}
use esp32_deskflow.Actuator.Queue.{enqueue, actuator_queue_connected, actuator_queue_key_down}
use esp32_deskflow.Actuator.Fifo.{list_fifo}
use esp32_deskflow.Actuator.Usb.{Usb}
use esp32_deskflow.Actuator.System.{start}
use esp32_deskflow.Client.{Client, ClientState, Moment, handle_packet, acted}
use esp32_deskflow.Client.Task.{
  Task, Round, arrived, unread, Attempt, packet_loop, greeted, opened, connect, packet_round,
  attempt,
}
use esp32_deskflow.Client.Apart.{IsApart, GoesOn}
use esp32_deskflow.Client.Session.{attempt_lem}
use esp32_deskflow.Client.Ended.{waiting}

abbrev new_client : Client (List Cmd)
new_client = record {
  state = ClientState.idle;
  actuator = tusb_actuator_init [] 1920 1080;
  reconnect = reconnect_init;
  running = true;
  read_buf = replicate 1024 0;
  write_buf = replicate 1024 0;
  last_activity_ms = 0;
  cursor_entered = false;
  written = [];
}

abbrev task : Task (List Cmd)
task = record {
  client = new_client;
  tls = some (tls_client_create (codes "desk.local") 24800);
  reconnect_bit = false;
}

abbrev usb : Usb
usb = record {
  suspended = false;
  remote_wakeup_en = true;
  pending_send = false;
  replies = [];
  sent = [];
  wakeups = 0;
}

abbrev moment : Moment
moment = record { now = 50; write = λ bytes. pos (length bytes); cas_ok = true }

abbrev key_round : Round
key_round = record {
  cfg = config_defaults;
  stopped = false;
  signalled = false;
  received = arrived (Packet.dkdn 97 0 1);
  now = 50;
  moment = moment;
}

abbrev broken_round : Round
broken_round = record key_round { received = unread esp_fail }

-- A connection with one key, which then breaks.
abbrev one_key : Attempt
one_key = record {
  cfg = config_defaults;
  created = true;
  shaken = record {
    status = esp_ok;
    read_buf = replicate 1024 0;
    write_buf = replicate 1024 0;
    written = [];
  };
  linked = λ tls. record tls { connected = true; tls = true; opened = tls.opened + 1 };
  rounds = key_round ∷ broken_round ∷ [];
  random = 7;
}

task-IsApart : IsApart list_fifo table_us task usb
unfolding reconnect_init
task-IsApart = record {
  reach = start [] 1920 1080 usb;
  apart = refl;
  outside = refl;
  patient = refl;
}

two_wait :
    waiting list_fifo (packet_loop list_fifo one_key.rounds (opened list_fifo one_key task)) < 40
unfolding packet_loop packet_round handle_packet acted opened greeted connect
    actuator_queue_connected actuator_queue_key_down enqueue
two_wait = omega arith

attempt_lem_example :
    (again : Bool) × (t' : Task (List Cmd)) × (attempt list_fifo 40 one_key task ≡ some (again, t'))
    × IsApart list_fifo table_us t' usb
    × GoesOn list_fifo table_us again t'
attempt_lem_example =
    attempt_lem list_fifo table_us 40 one_key (key_round ∷ []) [] broken_round task usb task-IsApart
      refl refl two_wait

-- A connection during which the configuration changes, and then a key arrives.
abbrev changed_round : Round
changed_round = record key_round { signalled = true }

abbrev changed : Attempt
changed = record one_key { rounds = changed_round ∷ [] }
