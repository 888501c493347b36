-- ===== src/Config/Scanned.antt =====
-- What the fscanf of main/config/config.c assigns from an arbitrary settings file.
use esp32_deskflow.Prelude.{
  ℕ, zero, suc, ◌≤◌, ◌<◌, ◌≡◌, refl, arith, ◌⊎◌, inl, inr, ℤ, true, false, List, [], ◌∷◌, length,
  ◌==◌, if◌then◌else◌, Bool-cases, Option-cases,
}
use esp32_deskflow.Esp.{Outcome, done, fault, ◌>>=◌}
use esp32_deskflow.Config.Text.{
  Directive, space, lit, int, chars, Value, number, text, fscanf, is_int, member, span_not,
  assigned, skip_space, read_int,
}
use esp32_deskflow.Config.Fields.{free_of}
use esp32_deskflow.Config.Overflow.{
  EndsIn, Overflows, ends_later, number_behind, skip_space-EndsIn, span_not-EndsIn, read_int-EndsIn,
}

-- Values that stand at the front of what the directives assign.
abbrev pub Fits : List Directive → List Value → Type 0
Fits ds [] = Unit
Fits [] (v ∷ vs) = ⊥
Fits (space ∷ ds) (v ∷ vs) = Fits ds (v ∷ vs)
Fits (lit c ∷ ds) (v ∷ vs) = Fits ds (v ∷ vs)
Fits (int ∷ ds) (number v ∷ vs) = Fits ds vs
Fits (int ∷ ds) (text s ∷ vs) = ⊥
Fits (chars n stop ∷ ds) (number v ∷ vs) = ⊥
Fits (chars n stop ∷ ds) (text s ∷ vs) =
    (length s ≤ n) × (0 < length s) × (free_of stop s ≡ true) × Fits ds vs

span_not_fits :
    (n : ℕ) (stop cs : List ℕ)
    → (length (span_not n stop cs).0 ≤ n) × (free_of stop (span_not n stop cs).0 ≡ true)
span_not_fits zero stop cs = (omega arith, refl)
span_not_fits (suc n) stop [] = (omega arith, refl)
span_not_fits (suc n) stop (c ∷ cs) =
    let (short, plain) = span_not_fits n stop cs in
    elim (Bool-cases (member c stop)) [
      | inl stops ↦ rw stops (omega arith, refl)
      | inr other ↦ rw other (omega arith, rw other plain)
    ]

-- A number is outside the range of int, or values are read that fit.
abbrev pub Read : List Directive → List ℕ → Outcome (List Value) → Type 0
Read ds input o = (o ≡ fault) × Overflows input ⊎ ((vs : List Value) × (o ≡ done vs) × Fits ds vs)

-- What is read further on counts for the whole text.
kept_behind :
    (ds : List Directive) (rest input : List ℕ) (o : Outcome (List Value))
    → EndsIn rest input
    → Read ds rest o
    → Read ds input o
kept_behind ds rest input o ends (inl (bad, outside)) =
    inl (bad, number_behind rest input ends outside)
kept_behind ds rest input o ends (inr read) = inr read

-- White space and characters that have to be there assign nothing.
space_fits :
    (ds : List Directive) (input : List ℕ) (o : Outcome (List Value))
    → Read ds input o
    → Read (space ∷ ds) input o
space_fits ds input o (inl bad) = inl bad
space_fits ds input o (inr ([], read, fits)) = inr ([], read, tt)
space_fits ds input o (inr (v ∷ vs, read, fits)) = inr (v ∷ vs, read, fits)

lit_fits :
    (c : ℕ) (ds : List Directive) (input : List ℕ) (o : Outcome (List Value))
    → Read ds input o
    → Read (lit c ∷ ds) input o
lit_fits c ds input o (inl bad) = inl bad
lit_fits c ds input o (inr ([], read, fits)) = inr ([], read, tt)
lit_fits c ds input o (inr (v ∷ vs, read, fits)) = inr (v ∷ vs, read, fits)

number_fits :
    (ds : List Directive) (input : List ℕ) (v : ℤ) (rest : Outcome (List Value))
    → (is_int v ≡ false → Overflows input)
    → Read ds input rest
    → Read (int ∷ ds) input (if is_int v then rest >>= (λ vs. done (number v ∷ vs)) else fault)
number_fits ds input v rest over r = elim (Bool-cases (is_int v)) [
  | inr outside ↦ rw outside (inl (refl, over outside))
  | inl inside ↦ elim r [
    | inl (bad, there) ↦ rw (inside, bad) (inl (refl, there))
    | inr (vs, read, fits) ↦ rw (inside, read) (inr (number v ∷ vs, refl, fits))
  ]
]

string_fits :
    (ds : List Directive) (input : List ℕ) (n : ℕ) (stop found : List ℕ)
    (rest : Outcome (List Value))
    → length found ≤ n
    → free_of stop found ≡ true
    → Read ds input rest
    → Read (chars n stop ∷ ds) input (assigned found rest)
string_fits ds input n stop [] rest short plain r = inr ([], refl, tt)
string_fits ds input n stop (c ∷ cs) rest short plain r = elim r [
  | inl (bad, there) ↦ rw bad (inl (refl, there))
  | inr (vs, read, fits) ↦
      rw read (inr (text (c ∷ cs) ∷ vs, refl, (short, omega arith, plain, fits)))
]

-- Whatever the text is, the values fit the format, or the text has a number outside the range of int.
pub fscanf_fits : (ds : List Directive) (input : List ℕ) → Read ds input (fscanf ds input)
unfolding fscanf
fscanf_fits [] input = inr ([], refl, tt)
fscanf_fits (space ∷ ds) input =
    let rest = skip_space input in
    space_fits ds input (fscanf ds rest)
      (kept_behind ds rest input (fscanf ds rest) (skip_space-EndsIn input) (fscanf_fits ds rest))
fscanf_fits (lit c ∷ ds) [] = inr ([], refl, tt)
fscanf_fits (lit c ∷ ds) (b ∷ input) =
    let later_ =
      kept_behind ds input (b ∷ input) (fscanf ds input) (b ∷ [], refl) (fscanf_fits ds input) in
    elim (Bool-cases (b == c)) [
      | inl same ↦ rw same (lit_fits c ds (b ∷ input) (fscanf ds input) later_)
      | inr other ↦ rw other (inr ([], refl, tt))
    ]
fscanf_fits (int ∷ ds) input = elim (Option-cases (read_int (skip_space input))) [
  | inl nothing ↦ rw (fscanf, nothing) (inr ([], refl, tt))
  | inr ((v, rest), read) ↦
      let white = skip_space-EndsIn input in
      let ends =
        ends_later rest (skip_space input) input (read_int-EndsIn (skip_space input) rest v read)
          white in
      rw (fscanf, read)
        (number_fits ds input v (fscanf ds rest)
          (λ outside. (skip_space input, rest, v, white, read, outside))
          (kept_behind ds rest input (fscanf ds rest) ends (fscanf_fits ds rest)))
]
fscanf_fits (chars n stop ∷ ds) input =
    let (short, plain) = span_not_fits n stop input in
    let (found, rest) = span_not n stop input in
    string_fits ds input n stop found (fscanf ds rest) short plain (
      kept_behind ds rest input (fscanf ds rest) (span_not-EndsIn n stop input)
        (fscanf_fits ds rest))
