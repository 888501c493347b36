-- ===== src/Config/Numbers.antt =====
-- What main/config/config.c prints with `%u` and `%d` is read back by `%d`.
use native.Mathlib.Numerals.{unary_clauses}
use esp32_deskflow.Prelude.{
  ℕ, zero, suc, ◌+◌, ◌-◌, ◌*◌, ◌/◌, ◌%◌, ◌^◌, ◌<◌, ◌≡◌, refl, sym, ap, ◌∙◌, arith, inl, inr, ℤ, pos,
  negsuc, pos_part, neg_part, true, false, List, [], ◌∷◌, ◌++◌, append_assoc, ltb, ◌==◌, Bool-cases,
  some,
}
use esp32_deskflow.Config.Text.{
  decimal, print_u, print_d, is_digit, is_space, read_digits, read_unsigned, read_int, skip_space,
}

-- A digit is read.
read_digit :
    (acc d : ℕ) (cs : List ℕ)
    → d < 10
    → read_digits acc ((48 + d) ∷ cs) ≡ read_digits (acc * 10 + d) cs
read_digit acc d cs h =
    let digit : is_digit (48 + d) ≡ true = ground arith in
    let value : 48 + d - 48 ≡ d = omega arith in rw (digit, value) refl

-- The digits of a number are read as that number.
read_digits-decimal :
    (digits n : ℕ) (cs : List ℕ)
    → n < 10 ^ digits
    → read_digits 0 (decimal digits n ++ cs) ≡ read_digits n cs
unfolding decimal
read_digits-decimal zero n cs h = let nothing : n ≡ 0 = omega arith in rw nothing refl
read_digits-decimal (suc digits) n cs h = elim (Bool-cases (ltb n 10)) [
  | inl one ↦
      let small : n < 10 = ground arith in
      let value : 0 * 10 + n ≡ n = omega arith in
      rw one (read_digit 0 n cs small ∙ ap (λ m. read_digits m cs) value)
  | inr more ↦
      let front =
        read_digits-decimal digits (n / 10) ((48 + n % 10) ∷ cs)
          (omega (arith, simp unary_clauses at h)) in
      let joined : n / 10 * 10 + n % 10 ≡ n = omega arith in
      rw more (
        ap (λ l. read_digits 0 l) (append_assoc (decimal digits (n / 10)) ((48 + n % 10) ∷ []) cs)
        ∙ front
        ∙ read_digit (n / 10) (n % 10) cs (omega arith)
        ∙ ap (λ m. read_digits m cs) joined)
]

-- The first character of a number is a digit.
decimal-digit :
    (digits n : ℕ) (cs : List ℕ)
    → (c : ℕ) × (rest : List ℕ) × (decimal (suc digits) n ++ cs ≡ c ∷ rest) × (is_digit c ≡ true)
unfolding decimal
decimal-digit zero n cs = elim (Bool-cases (ltb n 10)) [
  | inl one ↦ (48 + n, cs, rw one refl, ground arith)
  | inr more ↦ (48 + n % 10, cs, rw more refl, ground arith)
]
decimal-digit (suc digits) n cs = elim (Bool-cases (ltb n 10)) [
  | inl one ↦ (48 + n, cs, rw one refl, ground arith)
  | inr more ↦
      let (c, rest, front, digit) = decimal-digit digits (n / 10) ((48 + n % 10) ∷ cs) in
      (
        c,
        rest,
        rw more (append_assoc (decimal (suc digits) (n / 10)) ((48 + n % 10) ∷ []) cs ∙ front),
        digit,
      )
]

read_unsigned_front :
    (l : List ℕ) (c : ℕ) (rest : List ℕ)
    → l ≡ c ∷ rest
    → is_digit c ≡ true
    → read_unsigned l ≡ some (read_digits 0 l)
read_unsigned_front l c rest front digit = rw front (rw digit refl)

-- A number is followed by something else.
read_unsigned-decimal :
    (n c : ℕ) (cs : List ℕ)
    → n < 10 ^ 10
    → is_digit c ≡ false
    → read_unsigned (print_u n ++ c ∷ cs) ≡ some (n, c ∷ cs)
read_unsigned-decimal n c cs h stop =
    let (d, rest, front, digit) = decimal-digit 9 n (c ∷ cs) in
    let ended : read_digits n (c ∷ cs) ≡ (n, c ∷ cs) = rw stop refl in
    read_unsigned_front (print_u n ++ c ∷ cs) d rest front digit
    ∙ ap some (read_digits-decimal 10 n (c ∷ cs) h ∙ ended)

read_int_digit :
    (l : List ℕ) (c : ℕ) (rest : List ℕ) (n : ℕ) (tail : List ℕ)
    → l ≡ c ∷ rest
    → is_digit c ≡ true
    → read_unsigned l ≡ some (n, tail)
    → read_int (skip_space l) ≡ some (pos n, tail)
read_int_digit l c rest n tail front digit read =
    let shown : is_space c ≡ false = ground arith in
    let unsigned : (c == 45) ≡ false = ground arith in
    let unsigned_too : (c == 43) ≡ false = ground arith in
    let read_front : read_unsigned (c ∷ rest) ≡ some (n, tail) =
      sym (ap read_unsigned front) ∙ read in
    rw (front, shown, unsigned, unsigned_too, read_front) refl

pub read_int-print_u :
    (n c : ℕ) (cs : List ℕ)
    → n < 10 ^ 10
    → is_digit c ≡ false
    → read_int (skip_space (print_u n ++ c ∷ cs)) ≡ some (pos n, c ∷ cs)
read_int-print_u n c cs h stop =
    let (d, rest, front, digit) = decimal-digit 9 n (c ∷ cs) in
    read_int_digit (print_u n ++ c ∷ cs) d rest n (c ∷ cs) front digit
      (read_unsigned-decimal n c cs h stop)

negative_read :
    (l : List ℕ) (n : ℕ) (tail : List ℕ)
    → read_unsigned l ≡ some (suc n, tail)
    → read_int (skip_space (45 ∷ l)) ≡ some (negsuc n, tail)
negative_read l n tail read = rw read refl

pub read_int-print_d :
    (v : ℤ) (c : ℕ) (cs : List ℕ)
    → pos_part v + neg_part v < 10 ^ 10
    → is_digit c ≡ false
    → read_int (skip_space (print_d v ++ c ∷ cs)) ≡ some (v, c ∷ cs)
read_int-print_d (pos n) c cs h stop = read_int-print_u n c cs (omega arith) stop
read_int-print_d (negsuc n) c cs h stop =
    negative_read (print_u (suc n) ++ c ∷ cs) n (c ∷ cs)
      (read_unsigned-decimal (suc n) c cs (omega arith) stop)
