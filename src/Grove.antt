-- ===== src/Grove.antt =====
-- main/grove/grove_uart.c: the UART of the Grove connector. The UART driver is a parameter, by what its
-- calls answer.
use esp32_deskflow.Prelude.{
  ℕ, ltb_ℤ, ℤ, pos, List, [], ◌∷◌, if◌then◌else◌, Option, none, some, ◌==◌, ◌≡◌, refl, false,
}
use esp32_deskflow.Config.Text.{member}
use esp32_deskflow.Esp.{EspErr, esp_ok, esp_fail, Outcome, done, fault}

-- `grove_uart_read`, with what uart_read_bytes puts into the buffer; none is a negative result.
unfoldable pub grove_uart_read : Option (List ℕ) → List ℕ
grove_uart_read none = []
grove_uart_read (some bytes) = bytes

-- `grove_uart_write`, with the result of uart_write_bytes.
unfoldable pub grove_uart_write : ℤ → EspErr
grove_uart_write bytes = if ltb_ℤ (pos 0) bytes then esp_ok else esp_fail

-- The queues of the heap that exist, by their handles, with the driver's own when it is installed, and
-- `s_evt_queue`.
pub record Uart : Type 0 where
  pub queues : List ℕ
  pub driver : Option ℕ
  pub s_evt_queue : Option ℕ

abbrev pub created : Option ℕ → List ℕ → List ℕ
created none queues = queues
created (some q) queues = q ∷ queues

-- `grove_uart_init`, with the handles of the queue that xQueueCreate gives (none for NULL) and of the
-- one that uart_driver_install creates and stores; the checks of ESP_ERROR_CHECK hold.
unfoldable pub grove_uart_init : Option ℕ → ℕ → Uart → EspErr × Uart
grove_uart_init own driver_queue u = (
  esp_ok,
  record {
    queues = driver_queue ∷ created own u.queues;
    driver = some driver_queue;
    s_evt_queue = some driver_queue;
  },
)

unfoldable pub grove_uart_get_event_queue : Uart → Option ℕ
grove_uart_get_event_queue u = u.s_evt_queue

-- The handles but one.
abbrev pub without : ℕ → List ℕ → List ℕ
without q [] = []
without q (r ∷ queues) = let rest = without q queues in if r == q then rest else r ∷ rest

-- `vQueueDelete` of a queue that does not exist any more is undefined.
abbrev pub queue_deleted : Option ℕ → Uart → Outcome Uart
queue_deleted none u = done u
queue_deleted (some q) u =
    if member q u.queues
    then done (record u { queues = without q u.queues; s_evt_queue = none })
    else fault

-- `grove_uart_deinit`, with what uart_driver_delete leaves of the driver's queues.
unfoldable pub grove_uart_deinit : (Option ℕ → List ℕ → List ℕ) → Uart → Outcome Uart
grove_uart_deinit driver_delete u =
    queue_deleted u.s_evt_queue
      (record u { queues = driver_delete u.driver u.queues; driver = none })

-- uart_driver_delete frees the queue that the driver created.
abbrev pub FreesQueue : (Option ℕ → List ℕ → List ℕ) → Type 0
FreesQueue driver_delete =
    (q : ℕ) (queues : List ℕ) → member q (driver_delete (some q) queues) ≡ false

-- Behind grove_uart_init grove_uart_deinit deletes the driver's queue a second time.
deinit_fault :
    (driver_delete : Option ℕ → List ℕ → List ℕ) (own : Option ℕ) (q : ℕ) (u : Uart)
    → FreesQueue driver_delete
    → grove_uart_deinit driver_delete (grove_uart_init own q u).1 ≡ fault
unfolding grove_uart_deinit grove_uart_init
deinit_fault driver_delete own q u frees = rw (frees q (q ∷ created own u.queues)) refl
