-- ===== src/Config/Text.antt =====
-- What main/config/config.c uses of the formats of fprintf and fscanf.
use esp32_deskflow.Prelude.{
  ℕ, zero, suc, ◌+◌, ◌-◌, ◌*◌, ◌/◌, ◌%◌, ◌^◌, ℤ, pos, negsuc, Bool, false, ◌&&◌, ◌||◌, List, [],
  ◌∷◌, ◌++◌, map, leb, ltb, ◌==◌, if◌then◌else◌, Option, none, some, codes, String,
}
use esp32_deskflow.Esp.{Outcome, done, fault, ◌>>=◌}

-- The decimal digits of a number of at most as many digits.
unfoldable pub decimal : ℕ → ℕ → List ℕ
decimal zero n = []
decimal (suc digits) n =
    let front = decimal digits (n / 10) in
    if ltb n 10 then (48 + n) ∷ [] else front ++ (48 + n % 10) ∷ []

-- `%u` and `%d`: 32 bits have at most ten digits.
abbrev pub print_u : ℕ → List ℕ
print_u n = decimal 10 n

abbrev pub print_d : ℤ → List ℕ
print_d (pos n) = decimal 10 n
print_d (negsuc n) = 45 ∷ decimal 10 (suc n)

-- White space, a character that has to be there, `%d`, and `%n[^...]`.
pub data Directive : Type 0 where
  space int : Directive
  lit : ℕ → Directive
  chars : ℕ → List ℕ → Directive

-- What a directive assigns.
pub data Value : Type 0 where
  number : ℤ → Value
  text : List ℕ → Value

abbrev pub is_space : ℕ → Bool
is_space c = (c == 32) || (leb 9 c && leb c 13)

abbrev pub is_digit : ℕ → Bool
is_digit c = leb 48 c && leb c 57

abbrev pub literal : String → List Directive
literal s = map (λ c. if is_space c then space else lit c) (codes s)

abbrev pub skip_space : List ℕ → List ℕ
skip_space [] = []
skip_space (c ∷ cs) = let rest = skip_space cs in if is_space c then rest else c ∷ cs

abbrev pub read_digits : ℕ → List ℕ → ℕ × List ℕ
read_digits n [] = (n, [])
read_digits n (c ∷ cs) =
    let rest = read_digits (n * 10 + (c - 48)) cs in if is_digit c then rest else (n, c ∷ cs)

-- A sign is followed by a digit.
abbrev pub read_unsigned : List ℕ → Option (ℕ × List ℕ)
read_unsigned [] = none
read_unsigned (c ∷ cs) = if is_digit c then some (read_digits 0 (c ∷ cs)) else none

abbrev pub negated : ℕ → ℤ
negated zero = pos 0
negated (suc n) = negsuc n

abbrev pub read_int : List ℕ → Option (ℤ × List ℕ)
read_int [] = none
read_int (c ∷ cs) =
    if c == 45
    then elim (read_unsigned cs) [ none ↦ none | some (n, rest) ↦ some (negated n, rest) ]
    else if c == 43
    then elim (read_unsigned cs) [ none ↦ none | some (n, rest) ↦ some (pos n, rest) ]
    else elim (read_unsigned (c ∷ cs)) [ none ↦ none | some (n, rest) ↦ some (pos n, rest) ]

abbrev pub member : ℕ → List ℕ → Bool
member c [] = false
member c (s ∷ stop) = (c == s) || member c stop

-- At most `n` characters that are not in `stop`, and the rest.
abbrev pub span_not : ℕ → List ℕ → List ℕ → List ℕ × List ℕ
span_not zero stop cs = ([], cs)
span_not (suc n) stop [] = ([], [])
span_not (suc n) stop (c ∷ cs) =
    let (found, rest) = span_not n stop cs in
    if member c stop then ([], c ∷ cs) else (c ∷ found, rest)

-- The range of `int`; C leaves a number outside of it undefined.
abbrev pub is_int : ℤ → Bool
is_int (pos n) = ltb n (2 ^ 31)
is_int (negsuc n) = ltb n (2 ^ 31)

-- A string is assigned when it is not empty.
abbrev pub assigned : List ℕ → Outcome (List Value) → Outcome (List Value)
assigned [] rest = done []
assigned (c ∷ cs) rest = rest >>= (λ values. done (text (c ∷ cs) ∷ values))

-- The values that the directives assign, up to the first one that fails.
unfoldable pub fscanf : List Directive → List ℕ → Outcome (List Value)
fscanf [] input = done []
fscanf (space ∷ ds) input = fscanf ds (skip_space input)
fscanf (lit c ∷ ds) [] = done []
fscanf (lit c ∷ ds) (b ∷ input) = let rest = fscanf ds input in if b == c then rest else done []
fscanf (int ∷ ds) input = elim (read_int (skip_space input)) [
  | none ↦ done []
  | some (v, input') ↦
      let rest = fscanf ds input' in
      if is_int v then rest >>= (λ values. done (number v ∷ values)) else fault
]
fscanf (chars n stop ∷ ds) input =
    let (found, input') = span_not n stop input in
    let rest = fscanf ds input' in assigned found rest
