-- ===== src/Eth.antt =====
-- main/network/eth_network.c: the Ethernet driver with its events, and the VLAN registers. ESP-IDF is a
-- parameter, by what its calls answer.
mod Resources
pub mod Events
mod Vlan
mod Tests
use esp32_deskflow.Prelude.{
  ℕ, ◌*◌, ◌^◌, ℤ, pos, negsuc, pos_part, ltb_ℤ, eqb_ℤ, bit_and, bit_or, Bool, true, false, not,
  ◌&&◌, ◌||◌, List, [], ◌∷◌, if◌then◌else◌,
}
use esp32_deskflow.Esp.{
  EspErr, esp_ok, esp_fail, esp_err_invalid_arg, is_ok, Outcome, done, fault, ◌>>=◌,
}

-- What exists of the driver: the TCP/IP stack and the default event loop under it, its parts, the two
-- event handlers, and whether it runs.
pub record Driver : Type 0 where
  pub stack : Bool
  pub event_loop : Bool
  pub netif : Bool
  pub mac : Bool
  pub phy : Bool
  pub installed : Bool
  pub glue : Bool
  pub eth_handler : Bool
  pub ip_handler : Bool
  pub started : Bool

abbrev pub no_driver : Driver
no_driver = record {
  stack = false;
  event_loop = false;
  netif = false;
  mac = false;
  phy = false;
  installed = false;
  glue = false;
  eth_handler = false;
  ip_handler = false;
  started = false;
}

-- `eth_state_t` with its pointers as "is not null", and `s_eth_state` and `s_event_group` in `bound`.
pub record EthState : Type 0 where
  pub has_handle : Bool
  pub has_netif : Bool
  pub has_glue : Bool
  pub link_up : Bool
  pub has_ip : Bool
  pub bound : Bool

-- Which calls of eth_init succeed. The checks of ESP_ERROR_CHECK, which restart the chip, hold.
pub record Setup : Type 0 where
  pub new_netif : Bool
  pub new_mac : Bool
  pub new_phy : Bool
  pub install : Bool
  pub new_glue : Bool
  pub register_eth : EspErr
  pub register_ip : EspErr

abbrev pub eth_cleared : EthState
eth_cleared = record {
  has_handle = false;
  has_netif = false;
  has_glue = false;
  link_up = false;
  has_ip = false;
  bound = true;
}

-- `eth_init` on a state that is not null; the settings that it fills in for ESP-IDF are left out.
unfoldable pub eth_init : Setup → Driver → EspErr × EthState × Driver
eth_init s d =
    let d = record d { stack = true; event_loop = true } in
    if not s.new_netif
    then (esp_fail, eth_cleared, d)
    else let st = record eth_cleared { has_netif = true } in
      let d = record d { netif = true } in
      if not s.new_mac
      then (esp_fail, st, record d { netif = false })
      else let d = record d { mac = true } in
        if not s.new_phy
        then (esp_fail, st, record d { mac = false; netif = false })
        else let d = record d { phy = true } in
          if not s.install
          then (esp_fail, st, record d { mac = false; phy = false; netif = false })
          else let d = record d { installed = true } in
            let st = record st { has_handle = true } in
            if not s.new_glue
            then (
              esp_fail,
              st,
              record d { installed = false; mac = false; phy = false; netif = false },
            )
            else let d = record d { glue = true } in
              let st = record st { has_glue = true } in
              if not (is_ok s.register_eth)
              then (
                s.register_eth,
                st,
                record d {
                  glue = false;
                  installed = false;
                  mac = false;
                  phy = false;
                  netif = false;
                },
              )
              else let d = record d { eth_handler = true } in
                if not (is_ok s.register_ip)
                then (
                  s.register_ip,
                  st,
                  record d {
                    eth_handler = false;
                    glue = false;
                    installed = false;
                    mac = false;
                    phy = false;
                    netif = false;
                  },
                )
                else (esp_ok, st, record d { ip_handler = true })

-- `eth_start`, with the result of esp_eth_start.
unfoldable pub eth_start : EspErr → EthState → Driver → EspErr × Driver
eth_start result st d =
    if st.has_handle
    then (result, record d { started = is_ok result })
    else (esp_err_invalid_arg, d)

-- `esp_eth_get_mac_instance` and `esp_eth_get_phy_instance` on the handle of a driver, which is not
-- valid any more when that has been uninstalled.
abbrev pub get_instances : Driver → Outcome Driver
get_instances d = if d.installed then done d else fault

-- What `eth_stop` leaves of the state.
abbrev pub eth_unbound : EthState
eth_unbound = record eth_cleared { bound = false }

-- `eth_stop` on a state that is not null.
unfoldable pub eth_stop : EthState → Driver → Outcome (EthState × Driver)
eth_stop st d =
    let d1 = record d { eth_handler = false; ip_handler = false } in
    let freed = λ (d : Driver). record d { netif = if st.has_netif then false else d.netif } in
    if st.has_handle
    then (let d2 = record d1 { started = false; glue = false; installed = false } in
        get_instances d2 >>= λ _.
        done (eth_unbound, freed (record d2 { mac = false; phy = false })))
    else done (record eth_unbound { has_glue = st.has_glue }, freed d1)

-- The four bits of the event group.
pub record Bits : Type 0 where
  pub link_up : Bool
  pub link_down : Bool
  pub has_ip : Bool
  pub reconnect : Bool

-- The events that the two handlers are registered for.
pub data Event : Type 0 where
  connected disconnected started stopped got_ip : Event

-- `eth_event_handler` and `got_ip_event_handler`; the event group is there when `bound` is set.
unfoldable pub eth_event_handler : Event → EthState → Bits → EthState × Bits
eth_event_handler connected st bits =
    if st.bound
    then (record st { link_up = true }, record bits { link_up = true; link_down = false })
    else (st, bits)
eth_event_handler disconnected st bits =
    if st.bound
    then (record st { link_up = false }, record bits { link_up = false; link_down = true })
    else (st, bits)
eth_event_handler started st bits = (st, bits)
eth_event_handler stopped st bits = (st, bits)
eth_event_handler got_ip st bits =
    if st.bound then (record st { has_ip = true }, record bits { has_ip = true }) else (st, bits)

-- The two VLAN registers of the EMAC.
pub record Registers : Type 0 where
  pub vlantag : ℕ
  pub inclusion : ℕ

-- `eth_set_vlan`; `emac_etv` is the constant EMAC_ETV of the chip's header.
unfoldable pub eth_set_vlan : ℕ → ℤ → Registers → Registers
eth_set_vlan emac_etv vlan_id regs =
    if eqb_ℤ vlan_id (negsuc 0)
    then record { vlantag = 0; inclusion = 0 }
    else if ltb_ℤ vlan_id (pos 1) || ltb_ℤ (pos 4094) vlan_id
    then regs
    else record {
      vlantag = bit_or (bit_and (pos_part vlan_id) 0x0fff) emac_etv;
      inclusion = bit_or (bit_or (bit_and (pos_part vlan_id) 0x0fff) (2 * 2 ^ 16)) (1 * 2 ^ 18);
    }

-- `eth_reconfig_task`: the registers and the event group; the wait for an address only affects the
-- log, and the restart of DHCP is left out.
unfoldable pub eth_reconfig_task : ℕ → ℤ → Registers → Bits → Registers × Bits
unfolding eth_set_vlan
eth_reconfig_task emac_etv vlan_id regs bits =
    (eth_set_vlan emac_etv vlan_id regs, record bits { reconnect = true })
