-- ===== src/Client/Change.antt =====
-- A configuration that changes under the connection task of main/barrier/barrier_client.c.
use esp32_deskflow.Prelude.{◌≡◌, refl, true, false, some}
use esp32_deskflow.Packet.{Packet}
use esp32_deskflow.Tls.{tls_client_create, tls_client_close}
use esp32_deskflow.Actuator.{CmdQueue}
use esp32_deskflow.Client.Task.{Task, Attempt, check_reconnect}

module _ (fifo : CmdQueue) where
  open fifo use {Handle}

  -- EVENT_RECONNECT while not connected: the TLS client is a new one for the configured server and port,
  -- not yet connected, and the bit is cleared.
  pub changed_server_taken :
      (a : Attempt) (t : Task Handle)
      → t.reconnect_bit ≡ true
      → a.created ≡ true
      → ((check_reconnect fifo a t).0 ≡ true)
        × ((check_reconnect fifo a t).1.tls ≡ some (tls_client_create a.cfg.server a.cfg.port))
        × ((check_reconnect fifo a t).1.reconnect_bit ≡ false)
  unfolding check_reconnect tls_client_create tls_client_close
  changed_server_taken a t changed made = rw (changed, made) (refl, refl, refl)
