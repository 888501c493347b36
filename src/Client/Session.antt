-- ===== src/Client/Session.antt =====
-- The connection task of main/barrier/barrier_client.c: what a connection leaves, and what it does to
-- the actuator.
use esp32_deskflow.Prelude.{
  ℕ, ◌<◌, ◌≡◌, refl, sym, ap, ◌∙◌, Bool, subst, ◌++◌, true, List, ◌∷◌, length, some, Bool-cases,
  inl, inr,
}
use esp32_deskflow.Esp.{is_ok}
use esp32_deskflow.Actuator.{CmdQueue}
use esp32_deskflow.Actuator.Delivery.{queued}
use esp32_deskflow.Actuator.Usb.{Usb}
use esp32_deskflow.Client.Task.{
  Task, Round, Attempt, packet_loop, cleaned, check_reconnect, opened, after_cleanup,
  handshake_failed, attempt,
}
use esp32_deskflow.Client.Rounds.{
  LoopLeft, packet_loop-Reach, attempt_changed, attempt_connected, attempt_failed,
}
use esp32_deskflow.Client.Patient.{IsPatient, LoopKept, packet_loop-LoopKept}
use esp32_deskflow.Client.Ended.{is_last, waiting, packet_loop_ends}
use esp32_deskflow.Client.Apart.{
  IsApart, GoesOn, cleanup_lem, check_reconnect-IsApart, handshake_failed-IsApart,
  handshake_failed_lem, opened-IsPatient, opened-Reach, after_cleanup_lem,
}

module _ (fifo : CmdQueue) (table : List ℕ) where
  open fifo use {Handle}

  connected_lem :
      (fuel : ℕ) (a : Attempt) (t left : Task Handle) (u : Usb)
      → IsApart fifo table t u
      → packet_loop fifo a.rounds (opened fifo a t) ≡ some left
      → length (queued fifo left.client.actuator) < fuel
      → (again : Bool) × (t' : Task Handle) × (after_cleanup fifo a.random
            (cleaned fifo fuel (packet_loop fifo a.rounds (opened fifo a t)))
          ≡ some (again, t'))
        × IsApart fifo table t' u
        × GoesOn fifo table again t'
  connected_lem fuel a t left u w ends room =
      let reach = subst (LoopLeft fifo table u) ends (
        packet_loop-Reach fifo table a.rounds (opened fifo a t) u
          (opened-Reach fifo table a t u w)) in
      let patient =
        subst (LoopKept fifo (opened fifo a t).client.reconnect) ends
          (packet_loop-LoopKept fifo a.rounds (opened fifo a t) _ refl) in
      let (t', ran, w', only, shut) =
        cleanup_lem fifo table fuel left u room reach
          (subst IsPatient (sym patient) (opened-IsPatient fifo table a t w.patient)) in
      let (again, t2, went, w2, goes_on) = after_cleanup_lem fifo table a.random t' u w' in
      (
        again,
        t2,
        ap (λ o. after_cleanup fifo a.random (cleaned fifo fuel o)) ends
            ∙ ap (after_cleanup fifo a.random) ran
            ∙ went,
        w2,
        goes_on,
      )

  -- When one of the rounds that the packet loop meets is the stop of the client, a connection that
  -- breaks, or a packet behind EVENT_RECONNECT, the round of the connection task ends, with fuel for
  -- one more than the commands that wait behind the packet loop, and leaves a client that is not
  -- connected, with the cursor elsewhere, the actuator in a state that the events of its system lead to
  -- and no limit on the retries; the task then goes on with the next round, unless the client was
  -- stopped.
  pub attempt_lem :
      (fuel : ℕ) (a : Attempt) (before after : List Round) (r : Round) (t : Task Handle) (u : Usb)
      → IsApart fifo table t u
      → a.rounds ≡ before ++ r ∷ after
      → is_last r ≡ true
      → waiting fifo (packet_loop fifo a.rounds (opened fifo a t)) < fuel
      → (again : Bool) × (t' : Task Handle) × (attempt fifo fuel a t ≡ some (again, t'))
        × IsApart fifo table t' u
        × GoesOn fifo table again t'
  attempt_lem fuel a before after r t u w rounds last room =
      elim (Bool-cases (check_reconnect fifo a t).0) [
        | inl changed ↦ (
          (check_reconnect fifo a t).0,
          (check_reconnect fifo a t).1,
          attempt_changed fifo fuel a t changed,
          check_reconnect-IsApart fifo table a t u w,
          inl changed,
        )
        | inr same ↦ elim (Bool-cases (is_ok a.shaken.status)) [
          | inr failed ↦ (
            (handshake_failed fifo a t).0,
            (handshake_failed fifo a t).1,
            attempt_failed fifo fuel a t same failed,
            handshake_failed-IsApart fifo table a t u w,
            inl (handshake_failed_lem fifo table a t w.patient),
          )
          | inl shaken ↦
              let (left, ended) = packet_loop_ends fifo before after r (opened fifo a t) last in
              let ends = ap (λ rs. packet_loop fifo rs (opened fifo a t)) rounds ∙ ended in
              let (again, t', went, w', goes_on) =
                connected_lem fuel a t left u w ends
                  (subst (λ o. waiting fifo o < fuel) ends room) in
              (again, t', attempt_connected fifo fuel a t same shaken ∙ went, w', goes_on)
        ]
      ]
