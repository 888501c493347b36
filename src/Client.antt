-- ===== src/Client.antt =====
-- main/barrier/barrier_client.c: what the client does with a packet of the server. The results of
-- tls_client_read and tls_client_write are inputs.
pub mod Read
pub mod Hello
mod Framing
mod Dialogue
mod Greeting
pub mod Task
mod Rounds
mod Patient
mod Ended
mod Apart
mod Session
pub mod Change
pub mod Lifecycle
mod Wait
pub mod Released
mod TaskTests
mod LifecycleTests
mod Tests
use esp32_deskflow.Prelude.{
  ℕ, ◌*◌, ℤ, pos, ltb_ℤ, Bool, true, false, List, [], ◌∷◌, ◌++◌, take, if◌then◌else◌,
}
use esp32_deskflow.Esp.{EspErr, esp_ok, esp_fail, is_ok}
use esp32_deskflow.Packet.{Packet}
use esp32_deskflow.Packet.Serialize.{serialize_into}
use esp32_deskflow.Reconnect.{Reconnect}
use esp32_deskflow.Config.{Config}
use esp32_deskflow.Actuator.{CmdQueue, Actuator}
use esp32_deskflow.Actuator.Queue.{
  actuator_queue_key_down, actuator_queue_key_up, actuator_queue_key_repeat,
  actuator_queue_mouse_down, actuator_queue_mouse_up, actuator_queue_mouse_wheel,
  actuator_queue_enter, actuator_queue_leave, actuator_queue_jiggle,
}
use esp32_deskflow.Actuator.Position.{actuator_set_movement, actuator_move_relative}

abbrev pub barrier_read_buf_size : ℕ
barrier_read_buf_size = 1024

abbrev pub barrier_write_buf_size : ℕ
barrier_write_buf_size = 1024

-- `client_state_t`
pub data ClientState : Type 0 where
  idle connecting handshake connected disconnected : ClientState

-- `barrier_client_t`, with the actuator that it points to. `written` is what has been handed to
-- tls_client_write, call by call; the handles of the connection, the events and the task are left
-- out.
pub record Client (Q : Type 0) : Type 0 where
  pub state : ClientState
  pub actuator : Actuator Q
  pub reconnect : Reconnect
  pub running : Bool
  pub read_buf : List ℕ
  pub write_buf : List ℕ
  pub last_activity_ms : ℕ
  pub cursor_entered : Bool
  pub written : List (List ℕ)

-- What a call meets: the time in milliseconds, what tls_client_write returns on the connection for the
-- bytes that it is handed (what it does to the TLS client is in Client/Task), and whether the
-- compare-and-swap of a movement succeeds.
pub record Moment : Type 0 where
  pub now : ℕ
  pub write : List ℕ → ℤ
  pub cas_ok : Bool

module _ {Q : Type 0} where
  unfoldable pub send_packet : (List ℕ → ℤ) → Client Q → Packet → EspErr × Client Q
  send_packet write client pkt =
      let (err, buf, out_len) = serialize_into pkt client.write_buf barrier_write_buf_size in
      let filled = record client { write_buf = buf } in
      if is_ok err
      then (
        if ltb_ℤ (write (take out_len buf)) (pos 0) then esp_fail else esp_ok,
        record filled { written = client.written ++ take out_len buf ∷ [] },
      )
      else (err, filled)

  -- `if (act_ret != ESP_OK) return act_ret; client->last_activity_ms = ...; break;`
  unfoldable pub acted : ℕ → Client Q → EspErr × Actuator Q → EspErr × Client Q
  acted now client (err, act) =
      let client' = record client { actuator = act } in
      if is_ok err then (esp_ok, record client' { last_activity_ms = now }) else (err, client')

module _ (fifo : CmdQueue) where
  open fifo use {Handle}

  -- `keep_awake` queues a jiggle, whose failure is only logged.
  unfoldable pub keep_alive : Config → Client Handle → Client Handle
  keep_alive cfg client =
      if cfg.keep_awake
      then record client { actuator = (actuator_queue_jiggle fifo client.actuator).1 }
      else client

  unfoldable pub handle_packet : Config → Moment → Client Handle → Packet → EspErr × Client Handle
  unfolding send_packet acted keep_alive actuator_queue_key_down actuator_queue_key_up
      actuator_queue_key_repeat actuator_queue_mouse_down actuator_queue_mouse_up
      actuator_queue_mouse_wheel actuator_queue_enter actuator_queue_leave actuator_set_movement
      actuator_move_relative
  handle_packet cfg m client Packet.qinf =
      send_packet m.write client (Packet.dinf 0 0 cfg.screen_width cfg.screen_height 0 0 0)
  handle_packet cfg m client Packet.calv = send_packet m.write (keep_alive cfg client) Packet.calv
  handle_packet cfg m client (Packet.dmmv x y) = (
    esp_ok,
    record client {
      actuator = actuator_set_movement m.cas_ok client.actuator x y;
      last_activity_ms = m.now;
    },
  )
  handle_packet cfg m client (Packet.dmrm dx dy) = (
    esp_ok,
    record client {
      actuator = actuator_move_relative m.cas_ok client.actuator dx dy;
      last_activity_ms = m.now;
    },
  )
  handle_packet cfg m client (Packet.dkdn id mask button) =
      acted m.now client (actuator_queue_key_down fifo m.now client.actuator id mask button)
  handle_packet cfg m client (Packet.dkup id mask button) =
      acted m.now client (actuator_queue_key_up fifo m.now client.actuator id mask button)
  handle_packet cfg m client (Packet.dmdn id) =
      acted m.now client (actuator_queue_mouse_down fifo m.now client.actuator id)
  handle_packet cfg m client (Packet.dmup id) =
      acted m.now client (actuator_queue_mouse_up fifo m.now client.actuator id)
  handle_packet cfg m client (Packet.dmwm dx dy) =
      acted m.now client (actuator_queue_mouse_wheel fifo m.now client.actuator dx dy)
  handle_packet cfg m client (Packet.cinn x y seq mask) =
      acted m.now (record client { cursor_entered = true })
        (actuator_queue_enter fifo client.actuator x y mask)
  handle_packet cfg m client Packet.cout =
      let (err, act) = actuator_queue_leave fifo client.actuator in
      (err, record client { cursor_entered = false; actuator = act })
  handle_packet cfg m client Packet.cbye = (esp_fail, client)
  handle_packet cfg m client Packet.eunk = (esp_fail, client)
  handle_packet cfg m client Packet.ebsy = (esp_fail, client)
  handle_packet cfg m client Packet.ebad = (esp_fail, client)
  handle_packet cfg m client (Packet.eicv major minor) = (esp_fail, client)
  handle_packet cfg m client (Packet.dkrp id mask count button) = (
    esp_ok,
    record client {
      actuator = (actuator_queue_key_repeat fifo client.actuator id mask button count).1;
      last_activity_ms = m.now;
    },
  )
  handle_packet cfg m client pkt = (esp_ok, client)
