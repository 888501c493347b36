-- ===== src/Client/Dialogue.antt =====
-- What handle_packet of main/barrier/barrier_client.c does to the actuator.
use esp32_deskflow.Prelude.{
  ℕ, ◌≡◌, refl, sym, subst, Bool, true, false, List, ℤ, if◌then◌else◌, pos, ltb_ℤ, Bool-cases, inl,
  inr, ◌++◌, ◌∷◌, [], take,
}
use esp32_deskflow.Esp.{is_ok, EspErr, esp_ok, esp_fail}
use esp32_deskflow.Packet.{Packet}
use esp32_deskflow.Packet.Serialize.{serialize_into}
use esp32_deskflow.Actuator.{CmdQueue, Actuator}
use esp32_deskflow.Actuator.Queue.{
  actuator_queue_key_down, actuator_queue_key_up, actuator_queue_key_repeat,
  actuator_queue_mouse_down, actuator_queue_mouse_up, actuator_queue_mouse_wheel,
  actuator_queue_enter,
}
use esp32_deskflow.Actuator.Usb.{Usb}
use esp32_deskflow.Actuator.System.{Step, Reach, later}
use esp32_deskflow.Config.{Config}
use esp32_deskflow.Client.{
  Client, barrier_write_buf_size, Moment, send_packet, acted, keep_alive, handle_packet,
}

module _ {Q : Type 0} where
  if-actuator :
      (b : Bool) (r s : EspErr × Client Q) (act : Actuator Q)
      → r.1.actuator ≡ act
      → s.1.actuator ≡ act
      → (if b then r else s).1.actuator ≡ act
  if-actuator true r s act p q = p
  if-actuator false r s act p q = q

  send_packet-actuator :
      (write : List ℕ → ℤ) (client : Client Q) (pkt : Packet)
      → (send_packet write client pkt).1.actuator ≡ client.actuator
  unfolding send_packet
  send_packet-actuator write client pkt =
      let (err, buf, out_len) = serialize_into pkt client.write_buf barrier_write_buf_size in
      let filled = record client { write_buf = buf } in
      if-actuator (is_ok err)
        (
          if ltb_ℤ (write (take out_len buf)) (pos 0) then esp_fail else esp_ok,
          record filled { written = client.written ++ take out_len buf ∷ [] },
        )
        (err, filled) client.actuator refl refl

  acted-actuator :
      (now : ℕ) (client : Client Q) (r : EspErr × Actuator Q)
      → (acted now client r).1.actuator ≡ r.1
  unfolding acted
  acted-actuator now client r =
      let client' = record client { actuator = r.1 } in
      if-actuator (is_ok r.0) (esp_ok, record client' { last_activity_ms = now }) (r.0, client') r.1
        refl refl

module _ (fifo : CmdQueue) (table : List ℕ) where
  open fifo use {Handle}

  pub keep_alive-Reach :
      (cfg : Config) (client : Client Handle) (u : Usb)
      → Reach fifo table client.actuator u
      → Reach fifo table (keep_alive fifo cfg client).actuator u
  unfolding keep_alive
  keep_alive-Reach cfg client u reach = elim (Bool-cases cfg.keep_awake) [
    | inl on ↦ rw (on, keep_alive) (later reach Step.jiggle)
    | inr off ↦ rw (off, keep_alive) reach
  ]

  after_acting :
      (m : Moment) (client : Client Handle) (u : Usb) (r : EspErr × Actuator Handle)
      → Reach fifo table r.1 u
      → Reach fifo table (acted m.now client r).1.actuator u
  after_acting m client u r reach =
      subst (λ act. Reach fifo table act u) (sym (acted-actuator m.now client r)) reach

  -- Whatever packet arrives and whatever its handling meets, the actuator stays in a state that the
  -- events of the actuator's system lead to.
  pub handle_packet-Reach :
      (cfg : Config) (m : Moment) (client : Client Handle) (u : Usb) (pkt : Packet)
      → Reach fifo table client.actuator u
      → Reach fifo table (handle_packet fifo cfg m client pkt).1.actuator u
  unfolding handle_packet keep_alive
  handle_packet-Reach cfg m client u Packet.qinf reach =
      subst (λ act. Reach fifo table act u)
        (sym (
          send_packet-actuator m.write client
            (Packet.dinf 0 0 cfg.screen_width cfg.screen_height 0 0 0)))
        reach
  handle_packet-Reach cfg m client u Packet.calv reach =
      subst (λ act. Reach fifo table act u)
        (sym (send_packet-actuator m.write (keep_alive fifo cfg client) Packet.calv))
        (keep_alive-Reach cfg client u reach)
  handle_packet-Reach cfg m client u (Packet.dmmv x y) reach =
      later reach (Step.set_movement m.cas_ok x y)
  handle_packet-Reach cfg m client u (Packet.dmrm dx dy) reach =
      later reach (Step.move_relative m.cas_ok dx dy)
  handle_packet-Reach cfg m client u (Packet.dkdn id mask button) reach =
      after_acting m client u (actuator_queue_key_down fifo m.now client.actuator id mask button)
        (later reach (Step.key_down m.now id mask button))
  handle_packet-Reach cfg m client u (Packet.dkup id mask button) reach =
      after_acting m client u (actuator_queue_key_up fifo m.now client.actuator id mask button)
        (later reach (Step.key_up m.now id mask button))
  handle_packet-Reach cfg m client u (Packet.dmdn id) reach =
      after_acting m client u (actuator_queue_mouse_down fifo m.now client.actuator id)
        (later reach (Step.mouse_down m.now id))
  handle_packet-Reach cfg m client u (Packet.dmup id) reach =
      after_acting m client u (actuator_queue_mouse_up fifo m.now client.actuator id)
        (later reach (Step.mouse_up m.now id))
  handle_packet-Reach cfg m client u (Packet.dmwm dx dy) reach =
      after_acting m client u (actuator_queue_mouse_wheel fifo m.now client.actuator dx dy)
        (later reach (Step.mouse_wheel m.now dx dy))
  handle_packet-Reach cfg m client u (Packet.cinn x y seq mask) reach =
      after_acting m (record client { cursor_entered = true }) u
        (actuator_queue_enter fifo client.actuator x y mask) (later reach (Step.enter x y mask))
  handle_packet-Reach cfg m client u Packet.cout reach = later reach Step.leave
  handle_packet-Reach cfg m client u (Packet.dkrp id mask count button) reach =
      unfold actuator_queue_key_repeat in reach
  handle_packet-Reach cfg m client u _ reach = reach
