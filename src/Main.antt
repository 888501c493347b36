-- ===== src/Main.antt =====
-- main/main.c: the start of the program, in the order of its parts, and the loop that it then runs.
mod Started
mod Light
mod Posted
mod Tests
use esp32_deskflow.Prelude.{
  ℕ, ◌==◌, Bool, true, false, not, ◌||◌, List, [], ◌∷◌, ◌++◌, if◌then◌else◌, Option, none, some,
}
use esp32_deskflow.Esp.{EspErr, is_ok, Outcome, done, ◌>>=◌}
use esp32_deskflow.Msc.{Msc, usb_host_msc_init, usb_host_msc_start, usb_host_msc_is_mounted}
use esp32_deskflow.Config.{Store, config_load}
use esp32_deskflow.Config.Certs.{Certs, PemFile, config_load_certs}
use esp32_deskflow.Eth.{EthState, Driver, Setup, Registers, Bits, eth_init, eth_start, eth_set_vlan}
use esp32_deskflow.Client.Lifecycle.{Parts, Making, barrier_client_create, barrier_client_start}
use esp32_deskflow.Led.{Duties, led_rgb_state}
use esp32_deskflow.Log.{LogRing, Sends, web_log_drain}

-- What the program works on.
pub record Machine : Type 0 where
  pub msc : Msc
  pub store : Store
  pub certs : Certs
  pub eth : EthState
  pub driver : Driver
  pub registers : Registers
  pub parts : Parts

-- What the start meets: whether the queue and the semaphore of the mass storage host can be created, the
-- number of its slots, xTaskCreate, and what its task does until it answers; the three certificate files;
-- xEventGroupCreate; the Ethernet driver's calls and the constant EMAC_ETV; what the client needs, and its
-- task.
pub record Start : Type 0 where
  pub msc_created : Bool
  pub max_msc_devices : ℕ
  pub msc_task_created : Bool
  pub msc_task : Msc → Msc
  pub ca_file : PemFile
  pub cert_file : PemFile
  pub key_file : PemFile
  pub group_created : Bool
  pub setup : Setup
  pub eth_started : EspErr
  pub emac_etv : ℕ
  pub making : Making
  pub client_task_created : Bool

-- "Initialize and start USB host MSC"
abbrev pub msc_part : Start → Machine → Machine
msc_part s m =
    if s.msc_created
    then record m {
      msc =
          (usb_host_msc_start s.msc_task_created s.msc_task
            (usb_host_msc_init s.max_msc_devices)).1;
    }
    else m

-- "Load configuration and certs from USB"
abbrev pub certs_part : Start → Machine → Outcome Machine
certs_part s m =
    if usb_host_msc_is_mounted m.msc
    then (config_load_certs true s.ca_file s.cert_file s.key_file m.certs >>= λ r.
        done (record m { certs = r.1 }))
    else done m

abbrev pub config_part : Start → Machine → Outcome Machine
config_part s m = config_load (usb_host_msc_is_mounted m.msc) m.store >>= λ r.
    certs_part s (record m { store = r.1 })

-- "Initialize Ethernet", and "Apply VLAN from config"
abbrev pub ethernet_part : Start → Machine → Machine
ethernet_part s m =
    let made = eth_init s.setup m.driver in
    let started = eth_start s.eth_started made.1 made.2 in
    if not (is_ok made.0)
    then record m { eth = made.1; driver = made.2 }
    else if not (is_ok started.0)
    then record m { eth = made.1; driver = started.1 }
    else record m {
      eth = made.1;
      driver = started.1;
      registers = eth_set_vlan s.emac_etv m.store.config.vlan_id m.registers;
    }

-- "Create and start Barrier client"
abbrev pub client_part : Start → Machine → Machine
client_part s m =
    let made = barrier_client_create s.making m.parts in
    if made.0
    then record m { parts = (barrier_client_start s.client_task_created made.1).1 }
    else record m { parts = made.1 }

-- `app_main` up to its loop; none when it aborts for want of the event group. The light, the button, the
-- UART, TinyUSB and the web server are set up in between by calls without effect on this state. The task
-- of the mass storage host also loads the configuration, which is then loaded again.
unfoldable pub app_main : Start → Machine → Outcome (Option Machine)
unfolding usb_host_msc_init usb_host_msc_start usb_host_msc_is_mounted config_load config_load_certs
    eth_init eth_start eth_set_vlan barrier_client_create barrier_client_start
app_main s m = config_part s (msc_part s m) >>= λ m'.
    if s.group_created then done (some (client_part s (ethernet_part s m'))) else done none

-- What the loop keeps: `prev_has_ip`, the light, the log ring and the frames that were sent of it.
pub record Monitor : Type 0 where
  pub prev_has_ip : Bool
  pub light : Duties
  pub ring : LogRing
  pub frames : List (List ℕ)

-- One round of the loop of `app_main`: the bits that xEventGroupWaitBits gives, tud_mounted(), the mass
-- storage host, and what sending meets.
unfoldable pub monitor_round : Bits → Bool → Msc → Sends → Monitor → Monitor
unfolding usb_host_msc_is_mounted led_rgb_state web_log_drain
monitor_round bits tud_mounted msc sends m =
    let has_ip = bits.has_ip in
    let light = led_rgb_state has_ip (tud_mounted || usb_host_msc_is_mounted msc) in
    let drained = web_log_drain sends m.ring in
    if m.ring.connected
    then record {
      prev_has_ip = has_ip;
      light = light;
      ring = drained.1;
      frames = m.frames ++ drained.0;
    }
    else record m { prev_has_ip = has_ip; light = light }
