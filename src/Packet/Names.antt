-- ===== src/Packet/Names.antt =====
-- The four-letter codes and the packet types name one another.
use esp32_deskflow.Prelude.{
  ◌⊎◌, ℕ, ◌≡◌, refl, List, [], ◌∷◌, true, memcmp_eq, if◌then◌else◌, arith, inl, inr, Bool-cases,
  sym,
}
use esp32_deskflow.Packet.{PacketType}
use esp32_deskflow.Packet.Code.{code_to_type, type_to_code}

memcmp_eq_sound : (xs ys : List ℕ) → memcmp_eq xs ys ≡ true → xs ≡ ys
memcmp_eq_sound [] [] h = refl
memcmp_eq_sound [] (y ∷ ys) h = absurd (cc h)
memcmp_eq_sound (x ∷ xs) [] h = absurd (cc h)
memcmp_eq_sound (x ∷ xs) (y ∷ ys) h = ground (arith, memcmp_eq_sound xs ys)

-- What the search returns is named by `c`, unless it is the last answer.
abbrev Names : List ℕ → PacketType → Type 0
Names c t = (t ≡ PacketType.unknown) ⊎ (type_to_code t ≡ c)

-- The chain of comparisons as a search in a list of types.
first_named : List ℕ → List PacketType → PacketType
first_named c [] = PacketType.unknown
first_named c (t ∷ ts) = if memcmp_eq c (type_to_code t) then t else first_named c ts

first_named-Names : (c : List ℕ) (ts : List PacketType) → Names c (first_named c ts)
unfolding first_named
first_named-Names c [] = inl refl
first_named-Names c (t ∷ ts) = elim (Bool-cases (memcmp_eq c (type_to_code t))) [
  | inl same ↦ rw same (inr (sym (memcmp_eq_sound c (type_to_code t) same)))
  | inr other ↦ rw other (first_named-Names c ts)
]

code_of_type : (c : List ℕ) → Names c (code_to_type c)
unfolding code_to_type type_to_code first_named
code_of_type c = first_named-Names c (
    PacketType.qinf ∷ PacketType.dinf ∷ PacketType.ciak ∷ PacketType.calv ∷ PacketType.cnop
    ∷ PacketType.cinn ∷ PacketType.cout ∷ PacketType.dmmv ∷ PacketType.dmrm ∷ PacketType.dmup
    ∷ PacketType.dmdn ∷ PacketType.dmwm ∷ PacketType.dkup ∷ PacketType.dkdn ∷ PacketType.dkrp
    ∷ PacketType.cclp ∷ PacketType.dclp ∷ PacketType.cbye ∷ PacketType.eunk ∷ PacketType.ebsy
    ∷ PacketType.ebad ∷ PacketType.eicv ∷ PacketType.crop ∷ PacketType.dsop ∷ [])

type_of_code : (t : PacketType) → code_to_type (type_to_code t) ≡ t
unfolding code_to_type type_to_code
type_of_code PacketType.qinf = refl
type_of_code _ = refl

-- Every type is had back from its own code, so no two types share one; and an array that
-- `code_to_type` recognises is the code of the type it returns.
pub code_to_type-type_to_code :
    (t : PacketType) (c : List ℕ)
    → (code_to_type (type_to_code t) ≡ t)
      × ((code_to_type c ≡ PacketType.unknown) ⊎ (type_to_code (code_to_type c) ≡ c))
code_to_type-type_to_code t c = (type_of_code t, code_of_type c)
