-- ===== src/Client/Tests.antt =====
-- Runs of the client, and its theorems at concrete inputs.
use esp32_deskflow.Prelude.{
  ℕ, ◌≡◌, refl, arith, List, [], ◌∷◌, ◌++◌, true, false, some, length, replicate, pos,
}
use esp32_deskflow.Esp.{done}
use esp32_deskflow.Packet.{dmmv}
use esp32_deskflow.Packet.Wire.{fields, frame}
use esp32_deskflow.Packet.RoundTrip.{received}
use esp32_deskflow.Reconnect.{reconnect_init}
use esp32_deskflow.Actuator.{Cmd, tusb_actuator_init}
use esp32_deskflow.Actuator.Usb.{Usb}
use esp32_deskflow.Config.{Config, config_defaults}
use esp32_deskflow.Client.{Client, ClientState, Moment}
use esp32_deskflow.Client.Read.{Answer, ready, timed_out, conn_at, read_packet}
use esp32_deskflow.Client.Framing.{IsFlowing, chunks, read_packet_receives}

abbrev buffer : List ℕ
buffer = replicate 1024 0

-- Two bytes, a time-out after 10 ms, and the rest byte by byte.
abbrev slow : List Answer
slow = ready 1 ∷ timed_out 10 false ∷ replicate 12 (ready 0)

read_packet_receives_example :
    (answers' : List Answer) × (buf' : List ℕ) × (read_packet 0 60000 buffer
        (conn_at (frame (length (fields (dmmv 3 4))) (dmmv 3 4) ++ []) slow)
      ≡ some (done (received (dmmv 3 4)), buf', conn_at [] answers'))
unfolding IsFlowing chunks fields
read_packet_receives_example =
    read_packet_receives 0 60000 (dmmv 3 4) [] buffer slow (omega arith, omega arith)
      (refl, refl, tt) (omega arith)

abbrev new_client : Client (List Cmd)
new_client = record {
  state = ClientState.connected;
  actuator = tusb_actuator_init [] 1920 1080;
  reconnect = reconnect_init;
  running = true;
  read_buf = buffer;
  write_buf = buffer;
  last_activity_ms = 0;
  cursor_entered = false;
  written = [];
}

abbrev config : Config
config = record config_defaults { keep_awake = true }

abbrev moment : Moment
moment = record { now = 50; write = λ bytes. pos (length bytes); cas_ok = true }

abbrev usb : Usb
usb = record {
  suspended = false;
  remote_wakeup_en = true;
  pending_send = false;
  replies = [];
  sent = [];
  wakeups = 0;
}
