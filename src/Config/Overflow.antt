-- ===== src/Config/Overflow.antt =====
-- The numbers of a settings file that the fscanf of main/config/config.c cannot keep in an int.
use esp32_deskflow.Prelude.{
  ℕ, zero, suc, ◌≡◌, refl, sym, subst, ap, ◌∙◌, ℤ, pos, false, List, [], ◌∷◌, ◌++◌, Option, none,
  some, ◌==◌, Bool-cases, inl, inr, append_assoc, ◌+◌, ◌-◌, ◌*◌,
}
use esp32_deskflow.Config.Text.{
  is_space, is_digit, is_int, member, span_not, skip_space, read_digits, read_unsigned, negated,
  read_int,
}

-- The text `l` ends in `r`.
abbrev pub EndsIn : List ℕ → List ℕ → Type 0
EndsIn r l = (front : List ℕ) × (l ≡ front ++ r)

-- Somewhere in the text stands a number that is outside the range of int.
abbrev pub Overflows : List ℕ → Type 0
Overflows l =
    (r rest : List ℕ) × (v : ℤ) × EndsIn r l × (read_int r ≡ some (v, rest)) × (is_int v ≡ false)

one_more : (c : ℕ) (r l : List ℕ) → EndsIn r l → EndsIn r (c ∷ l)
one_more c r l (front, ends) = (c ∷ front, ap (λ t. c ∷ t) ends)

pub ends_later : (r s l : List ℕ) → EndsIn r s → EndsIn s l → EndsIn r l
ends_later r s l (front, ends) (front', ends') =
    (front' ++ front, ends' ∙ ap (λ t. front' ++ t) ends ∙ sym (append_assoc front' front r))

pub number_behind : (s l : List ℕ) → EndsIn s l → Overflows s → Overflows l
number_behind s l ends (r, rest, v, within, read, outside) =
    (r, rest, v, ends_later r s l within ends, read, outside)

pub skip_space-EndsIn : (l : List ℕ) → EndsIn (skip_space l) l
skip_space-EndsIn [] = ([], refl)
skip_space-EndsIn (c ∷ cs) = elim (Bool-cases (is_space c)) [
  | inl white ↦ rw white (one_more c (skip_space cs) cs (skip_space-EndsIn cs))
  | inr other ↦ rw other ([], refl)
]

pub span_not-EndsIn : (n : ℕ) (stop l : List ℕ) → EndsIn (span_not n stop l).1 l
span_not-EndsIn zero stop l = ([], refl)
span_not-EndsIn (suc n) stop [] = ([], refl)
span_not-EndsIn (suc n) stop (c ∷ cs) = elim (Bool-cases (member c stop)) [
  | inl stops ↦ rw stops ([], refl)
  | inr other ↦ rw other (one_more c (span_not n stop cs).1 cs (span_not-EndsIn n stop cs))
]

read_digits-EndsIn : (n : ℕ) (l : List ℕ) → EndsIn (read_digits n l).1 l
read_digits-EndsIn n [] = ([], refl)
read_digits-EndsIn n (c ∷ cs) = elim (Bool-cases (is_digit c)) [
  | inl digit ↦
      let n' = n * 10 + (c - 48) in
      rw digit (one_more c (read_digits n' cs).1 cs (read_digits-EndsIn n' cs))
  | inr other ↦ rw other ([], refl)
]

-- What a reading leaves, if it finds a number.
abbrev Left : {A : Type 0} → List ℕ → Option (A × List ℕ) → Type 0
Left l none = Unit
Left l (some p) = EndsIn p.1 l

read_unsigned-Left : (l : List ℕ) → Left l (read_unsigned l)
read_unsigned-Left [] = tt
read_unsigned-Left (c ∷ cs) = elim (Bool-cases (is_digit c)) [
  | inl digit ↦ rw digit (
      one_more c (read_digits (0 * 10 + (c - 48)) cs).1 cs
        (read_digits-EndsIn (0 * 10 + (c - 48)) cs))
  | inr other ↦ rw other tt
]

signed-Left :
    (f : ℕ → ℤ) (l : List ℕ) (o : Option (ℕ × List ℕ))
    → Left l o
    → Left l
        (elim o as (λ x. Option (ℤ × List ℕ)) [ none ↦ none | some (n, rest) ↦ some (f n, rest) ])
signed-Left f l none left = tt
signed-Left f l (some p) left = left

after_sign :
    {A : Type 0} → (c : ℕ) (l : List ℕ) (o : Option (A × List ℕ)) → Left l o → Left (c ∷ l) o
after_sign c l none left = tt
after_sign c l (some p) left = one_more c p.1 l left

read_int-Left : (l : List ℕ) → Left l (read_int l)
read_int-Left [] = tt
read_int-Left (c ∷ cs) = elim (Bool-cases (c == 45)) [
  | inl minus ↦
      rw minus
        (after_sign c cs _ (signed-Left negated cs (read_unsigned cs) (read_unsigned-Left cs)))
  | inr other ↦ elim (Bool-cases (c == 43)) [
    | inl plus ↦
        rw (other, plus)
          (after_sign c cs _ (signed-Left pos cs (read_unsigned cs) (read_unsigned-Left cs)))
    | inr none_there ↦
        rw (other, none_there)
          (signed-Left pos (c ∷ cs) (read_unsigned (c ∷ cs)) (read_unsigned-Left (c ∷ cs)))
  ]
]

pub read_int-EndsIn : (l rest : List ℕ) (v : ℤ) → read_int l ≡ some (v, rest) → EndsIn rest l
read_int-EndsIn l rest v read = subst (Left l) read (read_int-Left l)
