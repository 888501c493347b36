-- ===== src/Web.antt =====
-- The settings page's request of main/web/web_server.c: how a posted text changes the configuration.
pub mod Printing
pub mod Serial
mod SerialText
pub mod Format
pub mod Current
mod Searched
mod Keys
mod Restored
mod Sent
pub mod Certificates
mod Uploaded
mod Escaped
pub mod Posted
mod Applied
mod Routes
mod RequestTests
mod Tests
use esp32_deskflow.Prelude.{
  ℕ, zero, suc, ◌-◌, ◌^◌, min, ℤ, pos, negsuc, u8, u16, u16_of_int, int16_of_u16, ltb_ℤ, eqb_ℤ,
  Bool, true, false, not, ◌&&◌, ◌||◌, ltb, leb, ◌==◌, List, [], ◌∷◌, length, take, drop, memcmp_eq,
  if◌then◌else◌, Option, none, some, codes, String,
}
use esp32_deskflow.Esp.{EspErr, esp_ok, esp_fail, is_ok}
use esp32_deskflow.Config.{Config, Store, config_save}
use esp32_deskflow.Config.Text.{skip_space, read_int}
use esp32_deskflow.Eth.{Bits}

-- The string in a character array, up to its terminator.
abbrev pub c_string : List ℕ → List ℕ
c_string [] = []
c_string (c ∷ cs) = if c == 0 then [] else c ∷ c_string cs

-- `strstr`, and the text behind what was found.
abbrev pub behind : List ℕ → List ℕ → Option (List ℕ)
behind key [] = none
behind key (c ∷ cs) =
    let rest = behind key cs in
    if memcmp_eq (take (length key) (c ∷ cs)) key then some (drop (length key) (c ∷ cs)) else rest

abbrev pub prepended : ℕ → Option (List ℕ) → Option (List ℕ)
prepended b none = none
prepended b (some front) = some (b ∷ front)

-- The text in front of the first `c` that `strchr` finds.
abbrev pub until : ℕ → List ℕ → Option (List ℕ)
until c [] = none
until c (b ∷ bs) = let rest = prepended b (until c bs) in if b == c then some [] else rest

-- `strtoul(s, NULL, 10)` and `strtol(s, NULL, 10)` with a long of 32 bits.
abbrev pub unsigned_of : Option (ℤ × List ℕ) → ℕ
unsigned_of none = 0
unsigned_of (some (pos n, rest)) = min n (2 ^ 32 - 1)
unsigned_of (some (negsuc n, rest)) = if leb (2 ^ 32 - 1) n then 2 ^ 32 - 1 else 2 ^ 32 - suc n

abbrev pub strtoul : List ℕ → ℕ
strtoul s = unsigned_of (read_int (skip_space s))

abbrev pub signed_of : Option (ℤ × List ℕ) → ℤ
signed_of none = pos 0
signed_of (some (pos n, rest)) = pos (min n (2 ^ 31 - 1))
signed_of (some (negsuc n, rest)) = negsuc (min n (2 ^ 31 - 1))

abbrev pub strtol : List ℕ → ℤ
strtol s = signed_of (read_int (skip_space s))

-- A string field of `size` characters: its text in front of the next quotation mark, if there is one.
abbrev pub fitting : ℕ → List ℕ → Option (List ℕ) → List ℕ
fitting size old none = old
fitting size old (some value) = if ltb (length value) size then value else old

abbrev pub string_at : ℕ → List ℕ → Option (List ℕ) → List ℕ
string_at size old none = old
string_at size old (some s) = fitting size old (until 34 s)

-- A number field with its cast.
abbrev pub number_at : {A : Type 0} → (ℕ → A) → A → Option (List ℕ) → A
number_at cast old none = old
number_at cast old (some s) = cast (strtoul s)

abbrev pub is_vlan : ℤ → Bool
is_vlan id = eqb_ℤ id (negsuc 0) || (not (ltb_ℤ id (pos 1)) && not (ltb_ℤ (pos 4094) id))

abbrev pub vlan_at : ℤ → Option (List ℕ) → ℤ
vlan_at old none = old
vlan_at old (some s) =
    let vid = int16_of_u16 (u16_of_int (strtol s)) in if is_vlan vid then vid else old

-- The configuration that a posted text makes of the present one.
unfoldable pub posted : List ℕ → Config → Config
posted buf cfg = record {
  server = string_at 64 cfg.server (behind (codes "\"server\":\"") buf);
  port = number_at u16 cfg.port (behind (codes "\"port\":") buf);
  device_name = string_at 32 cfg.device_name (behind (codes "\"device_name\":\"") buf);
  keep_awake = number_at (λ n. not (n == 0)) cfg.keep_awake (behind (codes "\"keep_awake\":") buf);
  jiggle_interval = number_at u16 cfg.jiggle_interval (behind (codes "\"jiggle_interval\":") buf);
  screen_width = number_at u16 cfg.screen_width (behind (codes "\"screen_width\":") buf);
  screen_height = number_at u16 cfg.screen_height (behind (codes "\"screen_height\":") buf);
  scaling = number_at u16 cfg.scaling (behind (codes "\"scaling\":") buf);
  keyboard_layout = number_at u8 cfg.keyboard_layout (behind (codes "\"keyboard_layout\":") buf);
  vlan_id = vlan_at cfg.vlan_id (behind (codes "\"vlan_id\":") buf);
}

-- What the handler changes: the store, the event group, and whether the task that restarts the network
-- was started.
pub record Panel : Type 0 where
  pub store : Store
  pub bits : Bits
  pub reconfig : Bool

-- `settings_post_handler`, with the announced length, what httpd_req_recv gave (none for an error or
-- nothing), the results of usb_host_msc_is_mounted and fopen, and whether the event group is set. The
-- answers to the browser and the wake-up of the connection task are left out.
unfoldable pub settings_post_handler :
    ℕ → Option (List ℕ) → Bool → Bool → Bool → Panel → EspErr × Panel
unfolding posted config_save
settings_post_handler content_len received mounted opened has_group p =
    if ltb 1023 content_len then (esp_ok, p) else elim received [
      | none ↦ (esp_ok, p)
      | some text ↦
          let cfg = posted (c_string text) p.store.config in
          let saved = config_save mounted opened cfg p.store in
          if not (is_ok saved.0)
          then (esp_fail, record p { store = saved.1 })
          else if not (eqb_ℤ p.store.config.vlan_id cfg.vlan_id)
          then (esp_ok, record p { store = saved.1; reconfig = true })
          else (
            esp_ok,
            record p {
              store = saved.1;
              bits = if has_group then record p.bits { reconnect = true } else p.bits;
            },
          )
    ]
