-- ===== src/Eth/Tests.antt =====
-- main/network/eth_network.c at concrete inputs.
use esp32_deskflow.Prelude.{◌≡◌, ◌⊎◌, true, false}
use esp32_deskflow.Esp.{esp_ok, is_ok}
use esp32_deskflow.Eth.{EthState, Setup, Bits, Registers, no_driver, eth_cleared, eth_init}
use esp32_deskflow.Eth.Resources.{bare_driver, whole_driver, eth_init_lem}

abbrev no_bits : Bits
no_bits = record { link_up = false; link_down = false; has_ip = false; reconnect = false }

abbrev with_address : Bits
with_address = record no_bits { link_up = true; has_ip = true }

-- The glue cannot be created.
abbrev no_glue : Setup
no_glue = record {
  new_netif = true;
  new_mac = true;
  new_phy = true;
  install = true;
  new_glue = false;
  register_eth = esp_ok;
  register_ip = esp_ok;
}

eth_init_lem_example :
    (let (err, st, d) = eth_init no_glue no_driver in
      (is_ok err ≡ false) × (d ≡ bare_driver)
      ⊎ (err ≡ esp_ok)
        × (d ≡ whole_driver)
        × (st.has_handle ≡ true)
        × (st.has_netif ≡ true)
        × (st.has_glue ≡ true))
eth_init_lem_example = eth_init_lem no_glue

abbrev running : EthState
running = record eth_cleared { has_handle = true; has_netif = true; has_glue = true }

abbrev no_tags : Registers
no_tags = record { vlantag = 0; inclusion = 0 }
