-- ===== src/Client/Rounds.antt =====
-- The rounds of the connection task of main/barrier/barrier_client.c: what the packet loop does to the
-- actuator, and the three ways through a round of the outer loop.
use esp32_deskflow.Prelude.{
  ℕ, ◌≡◌, ap, ◌∙◌, Bool, true, false, ◌&&◌, ltb, ◌+◌, ◌-◌, ◌*◌, ◌%◌, ◌^◌, List, [], ◌∷◌,
  if◌then◌else◌, Option, none, some, Bool-cases, inl, inr,
}
use esp32_deskflow.Esp.{is_ok}
use esp32_deskflow.Config.{Config}
use esp32_deskflow.Actuator.{CmdQueue}
use esp32_deskflow.Actuator.Usb.{Usb}
use esp32_deskflow.Actuator.System.{Step, Reach, later}
use esp32_deskflow.Client.{Client}
use esp32_deskflow.Client.Dialogue.{handle_packet-Reach}
use esp32_deskflow.Client.Task.{
  Task, Round, Received, arrived, unread, Attempt, is_timeout, is_connected, disturbed, idle_round,
  packet_round, packet_loop, cleaned, check_reconnect, opened, after_cleanup, handshake_failed,
  attempt,
}

module _ (fifo : CmdQueue) (table : List ℕ) where
  open fifo use {Handle}

  idle_round-Reach :
      (cfg : Config) (now : ℕ) (client : Client Handle) (u : Usb)
      → Reach fifo table client.actuator u
      → Reach fifo table (idle_round fifo cfg now client).actuator u
  unfolding idle_round
  idle_round-Reach cfg now client u reach =
      elim (Bool-cases (
        cfg.keep_awake
        && client.cursor_entered
        && ltb (cfg.jiggle_interval * 1000) ((now + 2 ^ 64 - client.last_activity_ms) % 2 ^ 64))) [
          | inl due ↦ rw (idle_round, due) (later reach Step.jiggle)
          | inr idle ↦ rw (idle_round, idle) reach
        ]

  packet_round-Reach :
      (r : Round) (received : Received) (t : Task Handle) (u : Usb)
      → Reach fifo table t.client.actuator u
      → Reach fifo table (packet_round fifo r received t).1.client.actuator u
  unfolding packet_round
  packet_round-Reach r (unread err) t u reach = elim (Bool-cases (is_timeout err)) [
    | inl late ↦ rw (packet_round, late) (idle_round-Reach r.cfg r.now t.client u reach)
    | inr broken ↦ rw (packet_round, broken) reach
  ]
  packet_round-Reach r (arrived pkt) t u reach = elim (Bool-cases t.reconnect_bit) [
    | inl changed ↦ rw (packet_round, changed) reach
    | inr same ↦
        rw (packet_round, same) (handle_packet-Reach fifo table r.cfg r.moment t.client u pkt reach)
  ]

  -- A packet loop that ends leaves the actuator in a state that its events lead to.
  abbrev pub LoopLeft : Usb → Option (Task Handle) → Type 0
  LoopLeft u none = Unit
  LoopLeft u (some t) = Reach fifo table t.client.actuator u

  pub packet_loop-Reach :
      (rounds : List Round) (t : Task Handle) (u : Usb)
      → Reach fifo table t.client.actuator u
      → LoopLeft u (packet_loop fifo rounds t)
  unfolding packet_loop
  packet_loop-Reach [] t u reach =
      elim (Bool-cases (t.client.running && is_connected t.client.state)) [
        | inl on ↦ rw (packet_loop, on) tt
        | inr off ↦ rw (packet_loop, off) reach
      ]
  packet_loop-Reach (r ∷ rounds) t u reach =
      let t' = disturbed r t in
      let after = packet_round fifo r r.received t' in
      let round_reach = packet_round-Reach r r.received t' u reach in
      let rest_reach = packet_loop-Reach rounds after.1 u round_reach in
      elim (Bool-cases (t'.client.running && is_connected t'.client.state)) [
        | inr off ↦ rw (packet_loop, off) reach
        | inl on ↦ elim (Bool-cases after.0) [
          | inl goes_on ↦ rw (packet_loop, on, goes_on) rest_reach
          | inr breaks ↦ rw (packet_loop, on, breaks) round_reach
        ]
      ]

module _ (fifo : CmdQueue) where
  open fifo use {Handle}

  abbrev connected_part : ℕ → Attempt → Task Handle → Option (Bool × Task Handle)
  connected_part fuel a t =
      if is_ok a.shaken.status
      then after_cleanup fifo a.random
          (cleaned fifo fuel (packet_loop fifo a.rounds (opened fifo a t)))
      else some (handshake_failed fifo a t)

  -- The three ways through a round.
  pub attempt_changed :
      (fuel : ℕ) (a : Attempt) (t : Task Handle)
      → (check_reconnect fifo a t).0 ≡ true
      → attempt fifo fuel a t ≡ some (check_reconnect fifo a t)
  unfolding attempt
  attempt_changed fuel a t changed =
      ap (λ c. if c then some (check_reconnect fifo a t) else connected_part fuel a t) changed

  pub attempt_connected :
      (fuel : ℕ) (a : Attempt) (t : Task Handle)
      → (check_reconnect fifo a t).0 ≡ false
      → is_ok a.shaken.status ≡ true
      → attempt fifo fuel a t
        ≡ after_cleanup fifo a.random
            (cleaned fifo fuel (packet_loop fifo a.rounds (opened fifo a t)))
  unfolding attempt
  attempt_connected fuel a t same shaken =
      ap (λ c. if c then some (check_reconnect fifo a t) else connected_part fuel a t) same
      ∙ ap
          (λ c.
            if c
            then after_cleanup fifo a.random
                (cleaned fifo fuel (packet_loop fifo a.rounds (opened fifo a t)))
            else some (handshake_failed fifo a t))
          shaken

  pub attempt_failed :
      (fuel : ℕ) (a : Attempt) (t : Task Handle)
      → (check_reconnect fifo a t).0 ≡ false
      → is_ok a.shaken.status ≡ false
      → attempt fifo fuel a t ≡ some (handshake_failed fifo a t)
  unfolding attempt
  attempt_failed fuel a t same failed =
      ap (λ c. if c then some (check_reconnect fifo a t) else connected_part fuel a t) same
      ∙ ap
          (λ c.
            if c
            then after_cleanup fifo a.random
                (cleaned fifo fuel (packet_loop fifo a.rounds (opened fifo a t)))
            else some (handshake_failed fifo a t))
          failed
