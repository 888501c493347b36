-- ===== src/Eth/Resources.antt =====
-- What eth_init and eth_stop of main/network/eth_network.c create and release.
use esp32_deskflow.Prelude.{◌≡◌, refl, arith, ◌⊎◌, true, false}
use esp32_deskflow.Esp.{esp_ok, is_ok, fault}
use esp32_deskflow.Eth.{Driver, EthState, Setup, no_driver, eth_init, eth_stop}

-- The TCP/IP stack and the default event loop alone.
abbrev pub bare_driver : Driver
bare_driver = record no_driver { stack = true; event_loop = true }

abbrev pub whole_driver : Driver
whole_driver = record {
  stack = true;
  event_loop = true;
  netif = true;
  mac = true;
  phy = true;
  installed = true;
  glue = true;
  eth_handler = true;
  ip_handler = true;
  started = false;
}

-- Wherever eth_init fails, it has released all that it created but the TCP/IP stack and the default
-- event loop, which stay; when it returns ESP_OK, everything is there, and the state has its three
-- pointers. The two calls under ESP_ERROR_CHECK succeed.
pub eth_init_lem :
    (s : Setup)
    → (let (err, st, d) = eth_init s no_driver in
        (is_ok err ≡ false) × (d ≡ bare_driver)
        ⊎ (err ≡ esp_ok)
          × (d ≡ whole_driver)
          × (st.has_handle ≡ true)
          × (st.has_netif ≡ true)
          × (st.has_glue ≡ true))
unfolding eth_init
eth_init_lem s = ground arith

-- When the state has a driver handle, eth_stop uninstalls the driver and then asks the handle for its
-- parts.
pub eth_stop_fault : (st : EthState) (d : Driver) → st.has_handle ≡ true → eth_stop st d ≡ fault
unfolding eth_stop
eth_stop_fault st d has = rw has refl
