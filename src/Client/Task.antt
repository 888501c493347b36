-- ===== src/Client/Task.antt =====
-- The connection task of main/barrier/barrier_client.c, with what each of its rounds meets as an
-- input.
use esp32_deskflow.Prelude.{
  ℕ, ◌+◌, ◌-◌, ◌*◌, ◌%◌, ◌^◌, Bool, true, false, not, ◌&&◌, ◌||◌, ltb, List, [], ◌∷◌, ◌++◌,
  if◌then◌else◌, Option, none, some,
}
use esp32_deskflow.Esp.{EspErr, esp_err_timeout, is_ok}
use esp32_deskflow.Packet.{Packet}
use esp32_deskflow.Reconnect.{reconnect_reset, reconnect_delay, reconnect_should_retry}
use esp32_deskflow.Config.{Config}
use esp32_deskflow.Tls.{TlsClient, tls_client_create, tls_client_close}
use esp32_deskflow.Actuator.{CmdQueue}
use esp32_deskflow.Actuator.Queue.{
  actuator_queue_jiggle, actuator_queue_connected, actuator_queue_disconnected,
  actuator_queue_set_screen_size, actuator_queue_set_scaling,
}
use esp32_deskflow.Client.{Client, ClientState, Moment, handle_packet}

-- What the task works on: the client, its TLS client, and the bit EVENT_RECONNECT. `tls` is none
-- where the pointer is null.
pub record Task (Q : Type 0) : Type 0 where
  pub client : Client Q
  pub tls : Option TlsClient
  pub reconnect_bit : Bool

-- What read_packet returned.
pub data Received : Type 0 where
  arrived : Packet → Received
  unread : EspErr → Received

-- What a round of the packet loop meets: the current configuration, whether another task stops the
-- client or sets EVENT_RECONNECT, the packet, the time behind a time-out, and what handling meets.
pub record Round : Type 0 where
  pub cfg : Config
  pub stopped : Bool
  pub signalled : Bool
  pub received : Received
  pub now : ℕ
  pub moment : Moment

-- What handshake returned and left: see Client/Hello.
pub record Shaken : Type 0 where
  pub status : EspErr
  pub read_buf : List ℕ
  pub write_buf : List ℕ
  pub written : List (List ℕ)

-- What a round of the outer loop meets: the current configuration, whether a new TLS client can be
-- allocated, the handshake, what the calls of the connection do to the TLS client, the rounds of
-- the packet loop, and the random number of the delay.
pub record Attempt : Type 0 where
  pub cfg : Config
  pub created : Bool
  pub shaken : Shaken
  pub linked : TlsClient → TlsClient
  pub rounds : List Round
  pub random : ℕ

abbrev pub is_timeout : EspErr → Bool
is_timeout esp_err_timeout = true
is_timeout _ = false

abbrev pub is_connected : ClientState → Bool
is_connected ClientState.connected = true
is_connected _ = false

-- `tls_client_close`, which takes a null pointer too.
abbrev pub closed : Option TlsClient → Option TlsClient
closed none = none
closed (some tls) = some (tls_client_close tls)

-- What the calls of a connection do to the TLS client, if there is one.
abbrev pub used_tls : (TlsClient → TlsClient) → Option TlsClient → Option TlsClient
used_tls f none = none
used_tls f (some tls) = some (f tls)

module _ {Q : Type 0} where
  -- `vTaskDelay` of `reconnect_delay`, whose time is left out.
  unfoldable pub delayed : ℕ → Client Q → Client Q
  delayed random client = record client { reconnect = (reconnect_delay random client.reconnect).1 }

  -- What other tasks do before a round.
  abbrev pub disturbed : Round → Task Q → Task Q
  disturbed r t = record t {
    client = record t.client { running = t.client.running && not r.stopped };
    reconnect_bit = t.reconnect_bit || r.signalled;
  }

module _ (fifo : CmdQueue) where
  open fifo use {Handle}

  -- The branch of a time-out; the times are 64 bits wide.
  unfoldable pub idle_round : Config → ℕ → Client Handle → Client Handle
  unfolding actuator_queue_jiggle
  idle_round cfg now client =
      if cfg.keep_awake
        && client.cursor_entered
        && ltb (cfg.jiggle_interval * 1000) ((now + 2 ^ 64 - client.last_activity_ms) % 2 ^ 64)
      then record client {
        actuator = (actuator_queue_jiggle fifo client.actuator).1;
        last_activity_ms = now;
      }
      else client

  -- The body of the packet loop behind read_packet; false is its `break`.
  unfoldable pub packet_round : Round → Received → Task Handle → Bool × Task Handle
  unfolding idle_round
  packet_round r (unread err) t =
      if is_timeout err
      then (true, record t { client = idle_round r.cfg r.now t.client })
      else (false, t)
  packet_round r (arrived pkt) t =
      if t.reconnect_bit then (false, record t { reconnect_bit = false }) else (
        is_ok (handle_packet fifo r.cfg r.moment t.client pkt).0,
        record t { client = (handle_packet fifo r.cfg r.moment t.client pkt).1 },
      )

  -- The packet loop; none while it goes on behind the last of the rounds that it meets.
  unfoldable pub packet_loop : List Round → Task Handle → Option (Task Handle)
  unfolding packet_round
  packet_loop [] t = if t.client.running && is_connected t.client.state then none else some t
  packet_loop (r ∷ rounds) t =
      let t' = disturbed r t in
      let after = packet_round r r.received t' in
      let rest = packet_loop rounds after.1 in
      if t'.client.running && is_connected t'.client.state
      then (if after.0 then rest else some after.1)
      else some t'

  -- "Disconnected - cleanup", on fuel for the loop that empties the queue.
  unfoldable pub cleanup : ℕ → Task Handle → Option (Task Handle)
  cleanup fuel t = elim (actuator_queue_disconnected fifo fuel t.client.actuator) [
    | none ↦ none
    | some (e, act) ↦ some (record t {
      client = record t.client {
        state = ClientState.disconnected;
        cursor_entered = false;
        actuator = act;
      };
      tls = closed t.tls;
    })
  ]

  -- The check for a changed configuration; true is its `continue`. The configuration is not null.
  unfoldable pub check_reconnect : Attempt → Task Handle → Bool × Task Handle
  unfolding delayed
  check_reconnect a t =
      if t.reconnect_bit
      then (let act =
            (actuator_queue_set_screen_size fifo t.client.actuator a.cfg.screen_width
              a.cfg.screen_height).1 in
          let client = record t.client {
            actuator = (actuator_queue_set_scaling fifo act a.cfg.scaling).1;
          } in
          if a.created
          then (
            true,
            record {
              client = client;
              tls = closed (some (tls_client_create a.cfg.server a.cfg.port));
              reconnect_bit = false;
            },
          )
          else (
            true,
            record {
              client =
                  delayed a.random (record client { reconnect = reconnect_reset client.reconnect });
              tls = none;
              reconnect_bit = false;
            },
          ))
      else (false, t)

  -- What the handshake leaves in the client.
  abbrev pub shaken_hands : Shaken → Client Handle → Client Handle
  shaken_hands s client = record client {
    read_buf = s.read_buf;
    write_buf = s.write_buf;
    written = client.written ++ s.written;
  }

  -- The state when a handshake has succeeded.
  unfoldable pub connect : Client Handle → Client Handle
  connect client = record client {
    state = ClientState.connected;
    reconnect = reconnect_reset client.reconnect;
    actuator = (actuator_queue_connected fifo client.actuator).1;
  }

  -- The end of a round of the outer loop: whether it goes on, with the delay.
  unfoldable pub try_again : ℕ → Task Handle → Bool × Task Handle
  unfolding delayed
  try_again random t =
      if reconnect_should_retry t.client.reconnect
      then (true, record t { client = delayed random t.client })
      else (false, t)

  -- The state with which the handshake ends, and the one in which the packet loop begins.
  unfoldable pub greeted : Attempt → Task Handle → Task Handle
  greeted a t = record t {
    client = shaken_hands a.shaken (record t.client { state = ClientState.handshake });
    tls = used_tls a.linked t.tls;
  }

  unfoldable pub opened : Attempt → Task Handle → Task Handle
  unfolding greeted connect
  opened a t = record (greeted a t) { client = connect (greeted a t).client }

  -- The delay behind a clean-up, unless the client was stopped.
  abbrev pub after_cleanup : ℕ → Option (Task Handle) → Option (Bool × Task Handle)
  after_cleanup random none = none
  after_cleanup random (some t) =
      if t.client.running then some (try_again random t) else some (false, t)

  -- The branch of a failed handshake.
  unfoldable pub handshake_failed : Attempt → Task Handle → Bool × Task Handle
  unfolding greeted try_again
  handshake_failed a t =
      let failed = record (greeted a t) {
        client = record (greeted a t).client { state = ClientState.disconnected };
      } in
      let (again, t') = try_again a.random failed in
      (again, if again then record t' { tls = closed t'.tls } else t')

  -- The clean-up of a packet loop that has ended.
  abbrev pub cleaned : ℕ → Option (Task Handle) → Option (Task Handle)
  cleaned fuel none = none
  cleaned fuel (some t) = cleanup fuel t

  -- A round of the outer loop; false is its `break`. The network is up. none is a connection that goes
  -- on behind its rounds.
  unfoldable pub attempt : ℕ → Attempt → Task Handle → Option (Bool × Task Handle)
  unfolding check_reconnect opened packet_loop cleanup handshake_failed
  attempt fuel a t =
      let checked = check_reconnect a t in
      if checked.0
      then some checked
      else if is_ok a.shaken.status
      then after_cleanup a.random (cleaned fuel (packet_loop a.rounds (opened a t)))
      else some (handshake_failed a t)

  -- The end of the task.
  unfoldable pub ended : Task Handle → Task Handle
  ended t = record t { client = record t.client { state = ClientState.idle; running = false } }
