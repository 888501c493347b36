-- ===== src/Web/Keys.antt =====
-- Where the fields of the settings' text that main/web/web_server.c prints are found again.
use esp32_deskflow.Prelude.{ℕ, ◌≡◌, refl, ◌∙◌, true, List, [], ◌∷◌, ◌++◌, Option, some, codes}
use esp32_deskflow.Config.Fields.{free_of}
use esp32_deskflow.Web.{behind}
use esp32_deskflow.Web.Searched.{behind-plain, behind-quoted}
use esp32_deskflow.Web.Format
use esp32_deskflow.Web.Format.{Pieces}

-- The arguments in front of the last have no quotation mark.
pub record IsQuotable (p : Pieces) : Type 0 where
  pub server : free_of (codes "\"") p.server ≡ true
  pub port : free_of (codes "\"") p.port ≡ true
  pub device_name : free_of (codes "\"") p.device_name ≡ true
  pub screen_width : free_of (codes "\"") p.screen_width ≡ true
  pub screen_height : free_of (codes "\"") p.screen_height ≡ true
  pub scaling : free_of (codes "\"") p.scaling ≡ true
  pub jiggle_interval : free_of (codes "\"") p.jiggle_interval ≡ true
  pub keep_awake : free_of (codes "\"") p.keep_awake ≡ true
  pub keyboard_layout : free_of (codes "\"") p.keyboard_layout ≡ true

module _ (p : Pieces) (w : IsQuotable p) where
  module _ (k : List ℕ) (plain : free_of (codes "\"") k ≡ true) where
    -- The search for `"k":` passes the text of one argument.
    abbrev search : List ℕ → Option (List ℕ)
    search s = behind (34 ∷ (k ++ codes "\":")) s

    past_server : search (34 ∷ Format.server p) ≡ search (codes "\",\"port\":" ++ Format.port p)
    past_server = behind-quoted k [] p.server (codes "\"port\":" ++ Format.port p) plain w.server

    past_port :
        search (Format.port p) ≡ search (codes ",\"device_name\":\"" ++ Format.device_name p)
    past_port = behind-plain (k ++ codes "\":") p.port _ w.port

    past_device_name :
        search (34 ∷ Format.device_name p)
        ≡ search (codes "\",\"screen_width\":" ++ Format.screen_width p)
    past_device_name = behind-quoted k [] p.device_name _ plain w.device_name

    past_screen_width :
        search (Format.screen_width p)
        ≡ search (codes ",\"screen_height\":" ++ Format.screen_height p)
    past_screen_width = behind-plain (k ++ codes "\":") p.screen_width _ w.screen_width

    past_screen_height :
        search (Format.screen_height p) ≡ search (codes ",\"scaling\":" ++ Format.scaling p)
    past_screen_height = behind-plain (k ++ codes "\":") p.screen_height _ w.screen_height

    past_scaling :
        search (Format.scaling p)
        ≡ search (codes ",\"jiggle_interval\":" ++ Format.jiggle_interval p)
    past_scaling = behind-plain (k ++ codes "\":") p.scaling _ w.scaling

    past_jiggle_interval :
        search (Format.jiggle_interval p) ≡ search (codes ",\"keep_awake\":" ++ Format.keep_awake p)
    past_jiggle_interval = behind-plain (k ++ codes "\":") p.jiggle_interval _ w.jiggle_interval

    past_keep_awake :
        search (Format.keep_awake p)
        ≡ search (codes ",\"keyboard_layout\":" ++ Format.keyboard_layout p)
    past_keep_awake = behind-plain (k ++ codes "\":") p.keep_awake _ w.keep_awake

    past_keyboard_layout :
        search (Format.keyboard_layout p) ≡ search (codes ",\"vlan_id\":" ++ Format.vlan_id p)
    past_keyboard_layout = behind-plain (k ++ codes "\":") p.keyboard_layout _ w.keyboard_layout

  pub server_found : behind (codes "\"server\":\"") (Format.whole p) ≡ some (Format.server p)
  server_found = refl

  pub port_found : behind (codes "\"port\":") (Format.whole p) ≡ some (Format.port p)
  port_found = past_server (codes "port") refl

  pub screen_width_found :
      behind (codes "\"screen_width\":") (Format.whole p) ≡ some (Format.screen_width p)
  screen_width_found =
      let k = codes "screen_width" in
      past_server k refl ∙ past_port k refl ∙ past_device_name k refl

  pub device_name_found :
      behind (codes "\"device_name\":\"") (Format.whole p) ≡ some (Format.device_name p)
  device_name_found =
      behind-quoted (codes "device_name") (codes "\"") p.server (codes "\"port\":" ++ Format.port p)
        refl w.server
      ∙ behind-plain (codes "device_name\":\"") p.port _ w.port

  pub screen_height_found :
      behind (codes "\"screen_height\":") (Format.whole p) ≡ some (Format.screen_height p)
  screen_height_found =
      let k = codes "screen_height" in
      past_server k refl ∙ past_port k refl ∙ past_device_name k refl ∙ past_screen_width k refl

  pub scaling_found : behind (codes "\"scaling\":") (Format.whole p) ≡ some (Format.scaling p)
  scaling_found =
      let k = codes "scaling" in
      past_server k refl
      ∙ past_port k refl
      ∙ past_device_name k refl
      ∙ past_screen_width k refl
      ∙ past_screen_height k refl

  pub jiggle_interval_found :
      behind (codes "\"jiggle_interval\":") (Format.whole p) ≡ some (Format.jiggle_interval p)
  jiggle_interval_found =
      let k = codes "jiggle_interval" in
      past_server k refl
      ∙ past_port k refl
      ∙ past_device_name k refl
      ∙ past_screen_width k refl
      ∙ past_screen_height k refl
      ∙ past_scaling k refl

  pub keep_awake_found :
      behind (codes "\"keep_awake\":") (Format.whole p) ≡ some (Format.keep_awake p)
  keep_awake_found =
      let k = codes "keep_awake" in
      past_server k refl
      ∙ past_port k refl
      ∙ past_device_name k refl
      ∙ past_screen_width k refl
      ∙ past_screen_height k refl
      ∙ past_scaling k refl
      ∙ past_jiggle_interval k refl

  pub keyboard_layout_found :
      behind (codes "\"keyboard_layout\":") (Format.whole p) ≡ some (Format.keyboard_layout p)
  keyboard_layout_found =
      let k = codes "keyboard_layout" in
      past_server k refl
      ∙ past_port k refl
      ∙ past_device_name k refl
      ∙ past_screen_width k refl
      ∙ past_screen_height k refl
      ∙ past_scaling k refl
      ∙ past_jiggle_interval k refl
      ∙ past_keep_awake k refl

  pub vlan_id_found : behind (codes "\"vlan_id\":") (Format.whole p) ≡ some (Format.vlan_id p)
  vlan_id_found =
      let k = codes "vlan_id" in
      past_server k refl
      ∙ past_port k refl
      ∙ past_device_name k refl
      ∙ past_screen_width k refl
      ∙ past_screen_height k refl
      ∙ past_scaling k refl
      ∙ past_jiggle_interval k refl
      ∙ past_keep_awake k refl
      ∙ past_keyboard_layout k refl
