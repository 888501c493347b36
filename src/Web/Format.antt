-- ===== src/Web/Format.antt =====
-- The text of settings_get_handler in main/web/web_server.c.
use esp32_deskflow.Prelude.{ℕ, List, ◌++◌, codes}

-- The arguments of the format as texts.
pub record Pieces : Type 0 where
  pub server : List ℕ
  pub port : List ℕ
  pub device_name : List ℕ
  pub screen_width : List ℕ
  pub screen_height : List ℕ
  pub scaling : List ℕ
  pub jiggle_interval : List ℕ
  pub keep_awake : List ℕ
  pub keyboard_layout : List ℕ
  pub vlan_id : List ℕ

-- The format, from each of its arguments on.
abbrev pub vlan_id : Pieces → List ℕ
vlan_id p = p.vlan_id ++ codes "}"

abbrev pub keyboard_layout : Pieces → List ℕ
keyboard_layout p = p.keyboard_layout ++ (codes ",\"vlan_id\":" ++ vlan_id p)

abbrev pub keep_awake : Pieces → List ℕ
keep_awake p = p.keep_awake ++ (codes ",\"keyboard_layout\":" ++ keyboard_layout p)

abbrev pub jiggle_interval : Pieces → List ℕ
jiggle_interval p = p.jiggle_interval ++ (codes ",\"keep_awake\":" ++ keep_awake p)

abbrev pub scaling : Pieces → List ℕ
scaling p = p.scaling ++ (codes ",\"jiggle_interval\":" ++ jiggle_interval p)

abbrev pub screen_height : Pieces → List ℕ
screen_height p = p.screen_height ++ (codes ",\"scaling\":" ++ scaling p)

abbrev pub screen_width : Pieces → List ℕ
screen_width p = p.screen_width ++ (codes ",\"screen_height\":" ++ screen_height p)

abbrev pub device_name : Pieces → List ℕ
device_name p = p.device_name ++ (codes "\",\"screen_width\":" ++ screen_width p)

abbrev pub port : Pieces → List ℕ
port p = p.port ++ (codes ",\"device_name\":\"" ++ device_name p)

abbrev pub server : Pieces → List ℕ
server p = p.server ++ (codes "\",\"port\":" ++ port p)

abbrev pub whole : Pieces → List ℕ
whole p = codes "{\"server\":\"" ++ server p
