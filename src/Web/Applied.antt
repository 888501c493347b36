-- ===== src/Web/Applied.antt =====
-- From the settings request of main/web/web_server.c to the connection task of
-- main/barrier/barrier_client.c.
use esp32_deskflow.Prelude.{
  ℕ, ◌≤◌, ◌≡◌, refl, ap, ◌∙◌, arith, Bool, true, false, not, ltb, eqb_ℤ, List, length,
  if◌then◌else◌, some,
}
use esp32_deskflow.Esp.{EspErr, esp_ok}
use esp32_deskflow.Config.{config_save}
use esp32_deskflow.Tls.{tls_client_create}
use esp32_deskflow.Actuator.{CmdQueue}
use esp32_deskflow.Client.Task.{Task, Attempt, check_reconnect}
use esp32_deskflow.Client.Change.{changed_server_taken}
use esp32_deskflow.Web.{c_string, posted, Panel, settings_post_handler}

-- What a request does that is taken, saved, and leaves the VLAN number as it is.
abbrev pub applied : List ℕ → Panel → Panel
applied text p = record p {
  store = (config_save true true (posted (c_string text) p.store.config) p.store).1;
  bits = record p.bits { reconnect = true };
}

settings_post_applied :
    (text : List ℕ) (p : Panel)
    → length text ≤ 1023
    → eqb_ℤ p.store.config.vlan_id (posted (c_string text) p.store.config).vlan_id ≡ true
    → settings_post_handler (length text) (some text) true true true p ≡ (esp_ok, applied text p)
unfolding settings_post_handler config_save
settings_post_applied text p short same =
    let room : ltb 1023 (length text) ≡ false = ground arith in
    let saved = (config_save true true (posted (c_string text) p.store.config) p.store).1 in
    let vlan_checked = λ (c : Bool).
      if not c
      then (esp_ok, record p { store = saved; reconfig = true })
      else (esp_ok, applied text p) in
    ap
      (λ c.
        if c
        then (esp_ok, p)
        else vlan_checked
            (eqb_ℤ p.store.config.vlan_id (posted (c_string text) p.store.config).vlan_id))
      room
    ∙ ap vlan_checked same

module _ (fifo : CmdQueue) where
  open fifo use {Handle}

  -- A request of at most 1023 bytes that leaves the VLAN number as it is, while a stick is mounted: the
  -- handler returns ESP_OK. When the bit that it sets is still there at the connection task's next
  -- check, in front of a connection, and a new TLS client can be allocated, that check takes one for the
  -- server and the port that the posted text makes of the configuration, and clears the bit.
  pub posted_server_taken :
      (text : List ℕ) (p : Panel) (a : Attempt) (t : Task Handle)
      → length text ≤ 1023
      → eqb_ℤ p.store.config.vlan_id (posted (c_string text) p.store.config).vlan_id ≡ true
      → (let (err, p') = settings_post_handler (length text) (some text) true true true p in
          let cfg = posted (c_string text) p.store.config in
          (err ≡ esp_ok)
          × ((check_reconnect fifo
                (record a { cfg = p'.store.config; created = true })
                (record t { reconnect_bit = p'.bits.reconnect })).1.tls
              ≡ some (tls_client_create cfg.server cfg.port))
          × ((check_reconnect fifo
                (record a { cfg = p'.store.config; created = true })
                (record t { reconnect_bit = p'.bits.reconnect })).1.reconnect_bit
              ≡ false))
  unfolding config_save
  posted_server_taken text p a t short same =
      let done_ = settings_post_applied text p short same in
      let taken =
        changed_server_taken fifo
          (record a { cfg = posted (c_string text) p.store.config; created = true })
          (record t { reconnect_bit = true }) refl refl in
      (
        ap (λ (r : EspErr × Panel). r.0) done_,
        ap
              (λ (r : EspErr × Panel).
                (check_reconnect fifo (record a { cfg = r.1.store.config; created = true })
                  (record t { reconnect_bit = r.1.bits.reconnect })).1.tls)
              done_
            ∙ taken.1,
        ap
              (λ (r : EspErr × Panel).
                (check_reconnect fifo (record a { cfg = r.1.store.config; created = true })
                  (record t { reconnect_bit = r.1.bits.reconnect })).1.reconnect_bit)
              done_
            ∙ taken.2,
      )
