-- ===== src/Client/Apart.antt =====
-- The connection task of main/barrier/barrier_client.c between its connections.
use esp32_deskflow.Prelude.{
  ℕ, ◌<◌, ◌≡◌, refl, ◌⊎◌, ap, Bool, false, true, List, [], ◌∷◌, length, if◌then◌else◌, some,
  Bool-cases, inl, inr,
}
use esp32_deskflow.Esp.{esp_ok}
use esp32_deskflow.Reconnect.{reconnect_reset, reconnect_should_retry}
use esp32_deskflow.Actuator.{Cmd, CmdQueue}
use esp32_deskflow.Actuator.Delivery.{queued, disconnected_lem}
use esp32_deskflow.Actuator.Usb.{Usb}
use esp32_deskflow.Actuator.System.{Step, Reach, later}
use esp32_deskflow.Client.{ClientState}
use esp32_deskflow.Client.Task.{
  Task, Attempt, is_connected, closed, delayed, cleanup, check_reconnect, connect, try_again,
  greeted, opened, after_cleanup, handshake_failed,
}
use esp32_deskflow.Client.Patient.{
  IsPatient, should_retry-IsPatient, delay-IsPatient, reset-IsPatient,
}

module _ (fifo : CmdQueue) (table : List ℕ) where
  open fifo use {Handle}

  -- Between connections: the state is not CONNECTED, the cursor is not on this screen, the actuator's
  -- state is one that its events lead to, and the number of retries is not limited.
  pub record IsApart (t : Task Handle) (u : Usb) : Type 0 where
    pub reach : Reach fifo table t.client.actuator u
    pub apart : is_connected t.client.state ≡ false
    pub outside : t.client.cursor_entered ≡ false
    pub patient : IsPatient t.client.reconnect

  -- The clean-up is done with fuel for one more than the commands that wait.
  pub cleanup_lem :
      (fuel : ℕ) (t : Task Handle) (u : Usb)
      → length (queued fifo t.client.actuator) < fuel
      → Reach fifo table t.client.actuator u
      → IsPatient t.client.reconnect
      → (t' : Task Handle) × (cleanup fifo fuel t ≡ some t')
        × IsApart t' u
        × (queued fifo t'.client.actuator ≡ Cmd.disconnected ∷ [])
        × (t'.tls ≡ closed t.tls)
  unfolding cleanup
  cleanup_lem fuel t u room reach patient =
      let (act, ran, only) = disconnected_lem fifo t.client.actuator fuel room in
      (
        record t {
          client = record t.client {
            state = ClientState.disconnected;
            cursor_entered = false;
            actuator = act;
          };
          tls = closed t.tls;
        },
        rw (cleanup, ran) refl,
        record {
          reach = later reach (Step.disconnect fuel esp_ok act ran);
          apart = refl;
          outside = refl;
          patient = patient;
        },
        only,
        refl,
      )

  try_again-IsApart :
      (random : ℕ) (t : Task Handle) (u : Usb) → IsApart t u → IsApart (try_again fifo random t).1 u
  unfolding try_again delayed
  try_again-IsApart random t u w = elim (Bool-cases (reconnect_should_retry t.client.reconnect)) [
    | inl retry ↦
        rw (try_again, retry)
          (record {
            reach = w.reach;
            apart = w.apart;
            outside = w.outside;
            patient = delay-IsPatient random t.client.reconnect w.patient;
          })
    | inr given_up ↦ rw (try_again, given_up) w
  ]

  try_again_lem :
      (random : ℕ) (t : Task Handle)
      → IsPatient t.client.reconnect
      → (try_again fifo random t).0 ≡ true
  unfolding try_again
  try_again_lem random t patient = rw (should_retry-IsPatient t.client.reconnect patient) refl

  pub check_reconnect-IsApart :
      (a : Attempt) (t : Task Handle) (u : Usb)
      → IsApart t u
      → IsApart (check_reconnect fifo a t).1 u
  unfolding check_reconnect delayed
  check_reconnect-IsApart a t u w =
      let sized = later w.reach (Step.set_screen_size a.cfg.screen_width a.cfg.screen_height) in
      let scaled = later sized (Step.set_scaling a.cfg.scaling) in
      elim (Bool-cases t.reconnect_bit) [
        | inr same ↦
            rw (check_reconnect, same)
              (record {
                reach = w.reach;
                apart = w.apart;
                outside = w.outside;
                patient = w.patient;
              })
        | inl changed ↦ elim (Bool-cases a.created) [
          | inl made ↦
              rw (check_reconnect, changed, made)
                (record {
                  reach = scaled;
                  apart = w.apart;
                  outside = w.outside;
                  patient = w.patient;
                })
          | inr lost ↦
              rw (check_reconnect, changed, lost)
                (record {
                  reach = scaled;
                  apart = w.apart;
                  outside = w.outside;
                  patient =
                      delay-IsPatient a.random (reconnect_reset t.client.reconnect)
                        (reset-IsPatient t.client.reconnect w.patient);
                })
        ]
      ]

  pub handshake_failed-IsApart :
      (a : Attempt) (t : Task Handle) (u : Usb)
      → IsApart t u
      → IsApart (handshake_failed fifo a t).1 u
  unfolding handshake_failed greeted
  handshake_failed-IsApart a t u w =
      let failed = record (greeted fifo a t) {
        client = record (greeted fifo a t).client { state = ClientState.disconnected };
      } in
      let w' =
        try_again-IsApart a.random failed u
          (record { reach = w.reach; apart = refl; outside = w.outside; patient = w.patient }) in
      elim (Bool-cases (try_again fifo a.random failed).0) [
        | inl again ↦ rw again (record {
          reach = w'.reach;
          apart = w'.apart;
          outside = w'.outside;
          patient = w'.patient;
        })
        | inr given_up ↦ rw given_up w'
      ]

  pub handshake_failed_lem :
      (a : Attempt) (t : Task Handle)
      → IsPatient t.client.reconnect
      → (handshake_failed fifo a t).0 ≡ true
  unfolding handshake_failed greeted
  handshake_failed_lem a t patient = try_again_lem a.random _ patient

  pub opened-IsPatient :
      (a : Attempt) (t : Task Handle)
      → IsPatient t.client.reconnect
      → IsPatient (opened fifo a t).client.reconnect
  unfolding opened greeted connect
  opened-IsPatient a t patient = reset-IsPatient t.client.reconnect patient

  pub opened-Reach :
      (a : Attempt) (t : Task Handle) (u : Usb)
      → IsApart t u
      → Reach fifo table (opened fifo a t).client.actuator u
  unfolding opened greeted connect
  opened-Reach a t u w = later w.reach Step.connected

  -- The task goes on, or the client was stopped.
  abbrev pub GoesOn : Bool → Task Handle → Type 0
  GoesOn again t = (again ≡ true) ⊎ (t.client.running ≡ false)

  pub after_cleanup_lem :
      (random : ℕ) (t : Task Handle) (u : Usb)
      → IsApart t u
      → (again : Bool) × (t' : Task Handle) × (after_cleanup fifo random (some t)
          ≡ some (again, t'))
        × IsApart t' u
        × GoesOn again t'
  after_cleanup_lem random t u w = elim (Bool-cases t.client.running) [
    | inl runs ↦ (
      (try_again fifo random t).0,
      (try_again fifo random t).1,
      ap (λ b. if b then some (try_again fifo random t) else some (false, t)) runs,
      try_again-IsApart random t u w,
      inl (try_again_lem random t w.patient),
    )
    | inr stopped ↦ (
      false,
      t,
      ap (λ b. if b then some (try_again fifo random t) else some (false, t)) stopped,
      w,
      inr stopped,
    )
  ]
