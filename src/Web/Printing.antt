-- ===== src/Web/Printing.antt =====
-- What main/web/web_server.c uses of snprintf and httpd_resp_send: text that is printed into an array,
-- and bytes of an array that are sent.
use esp32_deskflow.Prelude.{
  ℕ, zero, suc, ◌+◌, ◌<◌, ◌≡◌, refl, ap, arith, List, [], ◌∷◌, ◌++◌, length, take, ltb,
  if◌then◌else◌,
}
use esp32_deskflow.Esp.{Outcome, done, error, fault}

-- `snprintf(&buf[0], size, ...)`: as much of the text as fits, and a terminator.
abbrev pub snprintf : List ℕ → List ℕ → List ℕ
snprintf [] text = []
snprintf (b ∷ []) text = 0 ∷ []
snprintf (b ∷ c ∷ buf) [] = 0 ∷ c ∷ buf
snprintf (b ∷ c ∷ buf) (t ∷ text) = t ∷ snprintf (c ∷ buf) text

abbrev pub after : ℕ → Outcome (List ℕ) → Outcome (List ℕ)
after b (done l) = done (b ∷ l)
after b (error e) = error e
after b fault = fault

-- `snprintf(buf + n, size - n, ...)`: behind the array's end `size - n` wraps around, and the call
-- writes outside.
abbrev pub snprintf_at : ℕ → List ℕ → List ℕ → Outcome (List ℕ)
snprintf_at zero text buf = done (snprintf buf text)
snprintf_at (suc n) text [] = fault
snprintf_at (suc n) text (b ∷ buf) = after b (snprintf_at n text buf)

-- `httpd_resp_send(req, buf, n)` reads `n` bytes of the array.
abbrev pub httpd_resp_send : List ℕ → ℕ → Outcome (List ℕ)
httpd_resp_send buf n = if ltb (length buf) n then fault else done (take n buf)

pub snprintf_at-append :
    (acc text buf : List ℕ)
    → snprintf_at (length acc) text (acc ++ buf) ≡ done (acc ++ snprintf buf text)
snprintf_at-append [] text buf = refl
snprintf_at-append (b ∷ acc) text buf = ap (after b) (snprintf_at-append acc text buf)

-- A text that fits is there whole.
pub record Printed (text buf : List ℕ) : Type 0 where
  pub rest : List ℕ
  pub whole : snprintf buf text ≡ text ++ rest
  pub room : length rest + length text ≡ length buf

pub snprintf-Printed : (text buf : List ℕ) → length text < length buf → Printed text buf
snprintf-Printed text [] h = absurd (omega arith)
snprintf-Printed [] (b ∷ []) h = record { rest = 0 ∷ []; whole = refl; room = refl }
snprintf-Printed (t ∷ text) (b ∷ []) h = absurd (omega arith)
snprintf-Printed [] (b ∷ c ∷ buf) h = record {
  rest = 0 ∷ c ∷ buf;
  whole = refl;
  room = omega arith;
}
snprintf-Printed (t ∷ text) (b ∷ c ∷ buf) h =
    let p = snprintf-Printed text (c ∷ buf) (omega arith) in
    record { rest = p.rest; whole = ap (λ l. t ∷ l) p.whole; room = omega (arith, p.room) }
