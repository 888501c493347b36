-- ===== src/Client/Ended.antt =====
-- When the packet loop of main/barrier/barrier_client.c ends.
use esp32_deskflow.Prelude.{
  ℕ, ◌≡◌, refl, arith, Bool, true, false, not, ◌&&◌, ◌||◌, List, [], ◌∷◌, ◌++◌, length, Option,
  none, some, Bool-cases, inl, inr,
}
use esp32_deskflow.Actuator.{CmdQueue}
use esp32_deskflow.Actuator.Delivery.{queued}
use esp32_deskflow.Client.Task.{
  Task, Round, Received, arrived, unread, is_timeout, is_connected, disturbed, packet_round,
  packet_loop,
}

-- read_packet failed, and not by a time-out.
abbrev pub is_broken : Received → Bool
is_broken (arrived pkt) = false
is_broken (unread err) = not (is_timeout err)

abbrev pub is_packet : Received → Bool
is_packet (arrived pkt) = true
is_packet (unread err) = false

-- A round in which another task stops the client, in which the connection breaks, or in which a packet
-- arrives behind EVENT_RECONNECT.
abbrev pub is_last : Round → Bool
is_last r = r.stopped || (is_broken r.received || (r.signalled && is_packet r.received))

module _ (fifo : CmdQueue) where
  open fifo use {Handle}

  -- The commands that wait behind a packet loop.
  abbrev pub waiting : Option (Task Handle) → ℕ
  waiting none = 0
  waiting (some t) = length (queued fifo t.client.actuator)

  packet_round_broken :
      (r : Round) (received : Received) (t : Task Handle)
      → is_broken received ≡ true
      → (packet_round fifo r received t).0 ≡ false
  unfolding packet_round
  packet_round_broken r (arrived pkt) t broken = absurd (ground (arith, broken))
  packet_round_broken r (unread err) t broken =
      let late : is_timeout err ≡ false = ground (arith, broken) in rw late refl

  packet_round_signalled :
      (r : Round) (received : Received) (t : Task Handle)
      → t.reconnect_bit ≡ true
      → is_packet received ≡ true
      → (packet_round fifo r received t).0 ≡ false
  unfolding packet_round
  packet_round_signalled r (arrived pkt) t changed packet = rw changed refl
  packet_round_signalled r (unread err) t changed packet = absurd (ground (arith, packet))

  packet_round_last :
      (r : Round) (t : Task Handle)
      → is_last r ≡ true
      → (disturbed r t).client.running ≡ true
      → (packet_round fifo r r.received (disturbed r t)).0 ≡ false
  packet_round_last r t last on = elim (Bool-cases (is_broken r.received)) [
    | inl broken ↦ packet_round_broken r r.received (disturbed r t) broken
    | inr whole ↦
        packet_round_signalled r r.received (disturbed r t) (ground (arith, last, on, whole))
          (ground (arith, last, on, whole))
  ]

  -- The packet loop ends at the latest with such a round, whatever comes before and behind it.
  pub packet_loop_ends :
      (before after : List Round) (r : Round) (t : Task Handle)
      → is_last r ≡ true
      → (t' : Task Handle) × (packet_loop fifo (before ++ r ∷ after) t ≡ some t')
  unfolding packet_loop
  packet_loop_ends [] after r t last =
      let t' = disturbed r t in
      elim (Bool-cases (t'.client.running && is_connected t'.client.state)) [
        | inr off ↦ (t', rw (packet_loop, off) refl)
        | inl on ↦ (
          (packet_round fifo r r.received t').1,
          rw (packet_loop, on, packet_round_last r t last (ground (arith, on))) refl,
        )
      ]
  packet_loop_ends (x ∷ before) after r t last =
      let t' = disturbed x t in
      let next = packet_round fifo x x.received t' in
      let (rest, ends) = packet_loop_ends before after r next.1 last in
      elim (Bool-cases (t'.client.running && is_connected t'.client.state)) [
        | inr off ↦ (t', rw (packet_loop, off) refl)
        | inl on ↦ elim (Bool-cases next.0) [
          | inl goes_on ↦ (rest, rw (packet_loop, on, goes_on) ends)
          | inr breaks ↦ (next.1, rw (packet_loop, on, breaks) refl)
        ]
      ]
