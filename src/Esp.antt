-- ===== src/Esp.antt =====
-- The status codes of ESP-IDF (`esp_err_t`) that the program returns, and computations that read
-- memory: main/barrier and main/config.
use esp32_deskflow.Prelude.{ℕ, Bool, true, false, List, get_elem?, some, none}

-- `esp_err_t`: the codes that the source names.
pub data EspErr : Type 0 where
  esp_ok esp_fail esp_err_no_mem esp_err_invalid_arg esp_err_invalid_state : EspErr
  esp_err_invalid_size esp_err_not_found esp_err_timeout : EspErr

-- A value, an error return, or a read outside the array, which C leaves undefined.
pub data Outcome {ℓ} (A : Type ℓ) : Type ℓ where
  done : A → Outcome A
  error : EspErr → Outcome A
  fault : Outcome A

infixl 5 ◌>>=◌
abbrev pub ◌>>=◌ {ℓ κ} : {A : Type ℓ} {B : Type κ} → Outcome A → (A → Outcome B) → Outcome B
done a >>= f = f a
error e >>= f = error e
fault >>= f = fault

-- `buf[i]`.
abbrev pub load : List ℕ → ℕ → Outcome ℕ
load buf i = elim (get_elem? buf i) [ none ↦ fault | some b ↦ done b ]

-- `err == ESP_OK`.
abbrev pub is_ok : EspErr → Bool
is_ok esp_ok = true
is_ok _ = false
