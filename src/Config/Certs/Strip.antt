-- ===== src/Config/Certs/Strip.antt =====
-- The loop of `_read_pem` in main/config/config.c that strips carriage returns.
use esp32_deskflow.Prelude.{
  ℕ, zero, suc, ◌+◌, ◌-◌, ◌≤◌, ◌<◌, ◌≡◌, refl, sym, ap, ◌∙◌, arith, inl, inr, Bool, true, false,
  not, ◌||◌, List, [], ◌∷◌, ◌++◌, append_assoc, append-nil, length, take, set, slice, get_or, ◌==◌,
  if◌then◌else◌, Bool-cases, length-set, slice-get_or, take-set_end, slice-set_before,
}
use esp32_deskflow.Config.Certs.{strip}

-- The text of a certificate without carriage returns, and with a newline at its end.
abbrev pub without_cr : List ℕ → List ℕ
without_cr [] = []
without_cr (c ∷ cs) = if not (c == 13) then c ∷ without_cr cs else without_cr cs

abbrev pub unterminated : List ℕ → Bool
unterminated text = (length text == 0) || not (get_or text (length text - 1) 0 == 10)

abbrev pub finished : List ℕ → List ℕ
finished text = if unterminated text then text ++ 10 ∷ [] else text

abbrev pub clean : List ℕ → List ℕ
clean content = finished (without_cr content)

-- The loop works in place: what it has kept stands in front of what it still reads.
pub record Stripped (left i w : ℕ) (b : List ℕ) (r : ℕ × List ℕ) : Type 0 where
  pub kept : take r.0 r.1 ≡ take w b ++ without_cr (slice b i left)
  pub behind : r.0 ≤ w + left
  pub cells : length r.1 ≡ length b

kept_step :
    (w : ℕ) (b : List ℕ) (i left : ℕ)
    → w ≤ i
    → i + suc left < length b
    → not (get_or b i 0 == 13) ≡ true
    → take (w + 1) (set b w (get_or b i 0))
        ++ without_cr (slice (set b w (get_or b i 0)) (i + 1) left)
      ≡ take w b ++ without_cr (slice b i (suc left))
kept_step w b i left h inside keep =
    let c = get_or b i 0 in
    let next : w + 1 ≡ suc w = omega arith in
    let after : i + 1 ≡ suc i = omega arith in
    let read : without_cr (slice b i (suc left)) ≡ c ∷ without_cr (slice b (suc i) left) =
      ap without_cr (slice-get_or b i left 0 (omega arith)) ∙ rw keep refl in
    rw (next, after)
      (ap (λ l. l ++ without_cr (slice (set b w c) (suc i) left)) (take-set_end b w c (omega arith))
        ∙ append_assoc (take w b) (c ∷ []) (without_cr (slice (set b w c) (suc i) left))
        ∙ ap (λ l. take w b ++ c ∷ without_cr l) (slice-set_before b (suc i) left w c (omega arith))
        ∙ ap (λ l. take w b ++ l) (sym read))

dropped_step :
    (b : List ℕ) (i left : ℕ)
    → i + suc left < length b
    → not (get_or b i 0 == 13) ≡ false
    → without_cr (slice b (i + 1) left) ≡ without_cr (slice b i (suc left))
dropped_step b i left inside cr =
    let after : i + 1 ≡ suc i = omega arith in
    let read : without_cr (slice b i (suc left)) ≡ without_cr (slice b (suc i) left) =
      ap without_cr (slice-get_or b i left 0 (omega arith)) ∙ rw cr refl in
    rw after (sym read)

pub strip_lem :
    (left i w : ℕ) (b : List ℕ)
    → w ≤ i
    → i + left < length b
    → Stripped left i w b (strip left i w b)
unfolding strip
strip_lem zero i w b h inside = record {
  kept = sym (append-nil (take w b));
  behind = omega arith;
  cells = refl;
}
strip_lem (suc left) i w b h inside = elim (Bool-cases (not (get_or b i 0 == 13))) [
  | inl keep ↦
      let c = get_or b i 0 in
      let rest =
        strip_lem left (i + 1) (w + 1) (set b w c) (omega arith)
          (omega (arith, length-set b w c)) in
      rw keep (record {
        kept = rest.kept ∙ kept_step w b i left h inside keep;
        behind = omega (arith, rest.behind);
        cells = rest.cells ∙ length-set b w c;
      })
  | inr cr ↦
      let rest = strip_lem left (i + 1) w b (omega arith) (omega arith) in
      rw cr (record {
        kept = rest.kept ∙ ap (λ l. take w b ++ l) (dropped_step b i left inside cr);
        behind = omega (arith, rest.behind);
        cells = rest.cells;
      })
]
