-- ===== src/Web/Searched.antt =====
-- What `strstr` and `strchr` find in the settings' text that main/web/web_server.c prints.
use esp32_deskflow.Prelude.{
  ℕ, ◌≡◌, refl, arith, true, false, ◌==◌, List, [], ◌∷◌, ◌++◌, length, take, memcmp_eq, some, codes,
}
use esp32_deskflow.Config.Fields.{free_of}
use esp32_deskflow.Web.{c_string, behind, until}

-- A text without quotation mark holds no key.
pub behind-plain :
    (k s rest : List ℕ)
    → free_of (codes "\"") s ≡ true
    → behind (34 ∷ k) (s ++ rest) ≡ behind (34 ∷ k) rest
behind-plain k [] rest plain = refl
behind-plain k (c ∷ s) rest plain =
    let other : (c == 34) ≡ false = ground arith in
    rw (other, behind-plain k s rest (ground arith)) refl

-- A quoted text is no key: a comma follows it, and a colon a key.
quoted-memcmp :
    (k t s rest : List ℕ)
    → free_of (codes "\"") k ≡ true
    → free_of (codes "\"") s ≡ true
    → memcmp_eq (take (length (k ++ 34 ∷ 58 ∷ t)) (s ++ 34 ∷ 44 ∷ rest)) (k ++ 34 ∷ 58 ∷ t) ≡ false
quoted-memcmp [] t [] rest key plain = refl
quoted-memcmp [] t (c ∷ s) rest key plain =
    let other : (c == 34) ≡ false = ground arith in rw other refl
quoted-memcmp (d ∷ k) t [] rest key plain =
    let other : (34 == d) ≡ false = ground arith in rw other refl
quoted-memcmp (d ∷ k) t (c ∷ s) rest key plain =
    let later = quoted-memcmp k t s rest (ground arith) (ground arith) in ground arith

pub behind-quoted :
    (k t s rest : List ℕ)
    → free_of (codes "\"") k ≡ true
    → free_of (codes "\"") s ≡ true
    → behind (34 ∷ (k ++ 34 ∷ 58 ∷ t)) (34 ∷ (s ++ 34 ∷ 44 ∷ rest))
      ≡ behind (34 ∷ (k ++ 34 ∷ 58 ∷ t)) (34 ∷ 44 ∷ rest)
behind-quoted k t s rest key plain =
    rw
      (quoted-memcmp k t s rest key plain, behind-plain (k ++ 34 ∷ 58 ∷ t) s (34 ∷ 44 ∷ rest) plain)
      refl

pub until-plain :
    (s rest : List ℕ) → free_of (codes "\"") s ≡ true → until 34 (s ++ 34 ∷ rest) ≡ some s
until-plain [] rest plain = refl
until-plain (c ∷ s) rest plain =
    let other : (c == 34) ≡ false = ground arith in
    rw (other, until-plain s rest (ground arith)) refl

pub c_string-append :
    (s rest : List ℕ) → free_of (0 ∷ []) s ≡ true → c_string (s ++ rest) ≡ s ++ c_string rest
c_string-append [] rest plain = refl
c_string-append (c ∷ s) rest plain =
    let other : (c == 0) ≡ false = ground arith in
    rw (other, c_string-append s rest (ground arith)) refl
