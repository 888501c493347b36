-- ===== src/Client/Patient.antt =====
-- What the rounds of main/barrier/barrier_client.c do to the parameters of main/network/reconnect.c.
use esp32_deskflow.Prelude.{
  ℕ, ◌≡◌, refl, ◌∙◌, Bool, true, false, ◌&&◌, ltb, ◌+◌, ◌-◌, ◌*◌, ◌%◌, ◌^◌, List, [], ◌∷◌, ◌++◌,
  take, ℤ, pos, negsuc, ltb_ℤ, if◌then◌else◌, Option, none, some, Bool-cases, inl, inr,
}
use esp32_deskflow.Esp.{EspErr, esp_ok, esp_fail, is_ok}
use esp32_deskflow.Packet.{Packet}
use esp32_deskflow.Packet.Serialize.{serialize_into}
use esp32_deskflow.Reconnect.{Reconnect, reconnect_reset, reconnect_delay, reconnect_should_retry}
use esp32_deskflow.Config.{Config}
use esp32_deskflow.Actuator.{Actuator, CmdQueue}
use esp32_deskflow.Client.{
  Client, barrier_write_buf_size, Moment, send_packet, acted, keep_alive, handle_packet,
}
use esp32_deskflow.Client.Task.{
  Task, Round, Received, arrived, unread, is_timeout, is_connected, disturbed, idle_round,
  packet_round, packet_loop,
}

-- The number of retries is not limited.
abbrev pub IsPatient : Reconnect → Type 0
IsPatient rc = rc.max_retries ≡ negsuc 0

pub should_retry-IsPatient : (rc : Reconnect) → IsPatient rc → reconnect_should_retry rc ≡ true
unfolding reconnect_should_retry
should_retry-IsPatient rc patient = rw patient refl

pub delay-IsPatient :
    (random : ℕ) (rc : Reconnect) → IsPatient rc → IsPatient (reconnect_delay random rc).1
unfolding reconnect_delay
delay-IsPatient random rc patient = patient

pub reset-IsPatient : (rc : Reconnect) → IsPatient rc → IsPatient (reconnect_reset rc)
unfolding reconnect_reset
reset-IsPatient rc patient = patient

module _ {Q : Type 0} where
  either_keeps :
      (b : Bool) (r s : EspErr × Client Q) (rc : Reconnect)
      → r.1.reconnect ≡ rc
      → s.1.reconnect ≡ rc
      → (if b then r else s).1.reconnect ≡ rc
  either_keeps true r s rc p q = p
  either_keeps false r s rc p q = q

  send_packet-reconnect :
      (write : List ℕ → ℤ) (client : Client Q) (pkt : Packet)
      → (send_packet write client pkt).1.reconnect ≡ client.reconnect
  unfolding send_packet
  send_packet-reconnect write client pkt =
      let (err, buf, out_len) = serialize_into pkt client.write_buf barrier_write_buf_size in
      let filled = record client { write_buf = buf } in
      either_keeps (is_ok err)
        (
          if ltb_ℤ (write (take out_len buf)) (pos 0) then esp_fail else esp_ok,
          record filled { written = client.written ++ take out_len buf ∷ [] },
        )
        (err, filled) client.reconnect refl refl

  acted-reconnect :
      (now : ℕ) (client : Client Q) (r : EspErr × Actuator Q)
      → (acted now client r).1.reconnect ≡ client.reconnect
  unfolding acted
  acted-reconnect now client r =
      let client' = record client { actuator = r.1 } in
      either_keeps (is_ok r.0) (esp_ok, record client' { last_activity_ms = now }) (r.0, client')
        client.reconnect refl refl

module _ (fifo : CmdQueue) where
  open fifo use {Handle}

  keep_alive-reconnect :
      (cfg : Config) (client : Client Handle)
      → (keep_alive fifo cfg client).reconnect ≡ client.reconnect
  unfolding keep_alive
  keep_alive-reconnect cfg client = elim (Bool-cases cfg.keep_awake) [
    | inl on ↦ rw (on, keep_alive) refl
    | inr off ↦ rw (off, keep_alive) refl
  ]

  handle_packet-reconnect :
      (cfg : Config) (m : Moment) (client : Client Handle) (pkt : Packet)
      → (handle_packet fifo cfg m client pkt).1.reconnect ≡ client.reconnect
  unfolding handle_packet
  handle_packet-reconnect cfg m client Packet.qinf = send_packet-reconnect m.write client _
  handle_packet-reconnect cfg m client Packet.calv =
      send_packet-reconnect m.write (keep_alive fifo cfg client) Packet.calv
      ∙ keep_alive-reconnect cfg client
  handle_packet-reconnect cfg m client (Packet.dkdn id mask button) = acted-reconnect m.now client _
  handle_packet-reconnect cfg m client (Packet.dkup id mask button) = acted-reconnect m.now client _
  handle_packet-reconnect cfg m client (Packet.dmdn id) = acted-reconnect m.now client _
  handle_packet-reconnect cfg m client (Packet.dmup id) = acted-reconnect m.now client _
  handle_packet-reconnect cfg m client (Packet.dmwm dx dy) = acted-reconnect m.now client _
  handle_packet-reconnect cfg m client (Packet.cinn x y seq mask) =
      acted-reconnect m.now (record client { cursor_entered = true }) _
  handle_packet-reconnect cfg m client _ = refl

  idle_round-reconnect :
      (cfg : Config) (now : ℕ) (client : Client Handle)
      → (idle_round fifo cfg now client).reconnect ≡ client.reconnect
  unfolding idle_round
  idle_round-reconnect cfg now client =
      elim (Bool-cases (
        cfg.keep_awake
        && client.cursor_entered
        && ltb (cfg.jiggle_interval * 1000) ((now + 2 ^ 64 - client.last_activity_ms) % 2 ^ 64))) [
          | inl due ↦ rw (idle_round, due) refl
          | inr idle ↦ rw (idle_round, idle) refl
        ]

  packet_round-reconnect :
      (r : Round) (received : Received) (t : Task Handle)
      → (packet_round fifo r received t).1.client.reconnect ≡ t.client.reconnect
  unfolding packet_round
  packet_round-reconnect r (unread err) t = elim (Bool-cases (is_timeout err)) [
    | inl late ↦ rw (packet_round, late) (idle_round-reconnect r.cfg r.now t.client)
    | inr broken ↦ rw (packet_round, broken) refl
  ]
  packet_round-reconnect r (arrived pkt) t = elim (Bool-cases t.reconnect_bit) [
    | inl changed ↦ rw (packet_round, changed) refl
    | inr same ↦ rw (packet_round, same) (handle_packet-reconnect r.cfg r.moment t.client pkt)
  ]

  -- The parameters behind a packet loop that ends.
  abbrev pub LoopKept : Reconnect → Option (Task Handle) → Type 0
  LoopKept rc none = Unit
  LoopKept rc (some t) = t.client.reconnect ≡ rc

  pub packet_loop-LoopKept :
      (rounds : List Round) (t : Task Handle) (rc : Reconnect)
      → t.client.reconnect ≡ rc
      → LoopKept rc (packet_loop fifo rounds t)
  unfolding packet_loop
  packet_loop-LoopKept [] t rc same =
      elim (Bool-cases (t.client.running && is_connected t.client.state)) [
        | inl on ↦ rw (packet_loop, on) tt
        | inr off ↦ rw (packet_loop, off) same
      ]
  packet_loop-LoopKept (r ∷ rounds) t rc same =
      let t' = disturbed r t in
      let after = packet_round fifo r r.received t' in
      let kept = packet_round-reconnect r r.received t' ∙ same in
      let rest = packet_loop-LoopKept rounds after.1 rc kept in
      elim (Bool-cases (t'.client.running && is_connected t'.client.state)) [
        | inr off ↦ rw (packet_loop, off) same
        | inl on ↦ elim (Bool-cases after.0) [
          | inl goes_on ↦ rw (packet_loop, on, goes_on) rest
          | inr breaks ↦ rw (packet_loop, on, breaks) kept
        ]
      ]
