-- ===== src/Log/Ring.antt =====
-- The log ring of main/web/web_server.c as a sequence of bytes.
use esp32_deskflow.Prelude.{
  ℕ, suc, ◌+◌, ◌-◌, ◌%◌, ◌≤◌, ◌<◌, ◌≡◌, inl, inr, sym, ap, ◌∙◌, arith, true, false, List, [], ◌∷◌,
  ◌++◌, append_assoc, append-nil, length, slice, set, leb, ltb, ◌==◌, if◌then◌else◌, Bool-cases,
  length-append, length-set, length-slice, slice-set_before, slice-set_end,
}
use esp32_deskflow.Log.{LogRing, log_ring_buf_size, used}

pub record IsRing (r : LogRing) : Type 0 where
  pub cells : length r.ring ≡ log_ring_buf_size
  pub head_in : r.head < log_ring_buf_size
  pub tail_in : r.tail < log_ring_buf_size

-- The bytes that wait to be sent, oldest first.
abbrev pub held : List ℕ → ℕ → ℕ → List ℕ
held ring tail head =
    if leb tail head
    then slice ring tail (head - tail)
    else slice ring tail (log_ring_buf_size - tail) ++ slice ring 0 head

abbrev pub contents : LogRing → List ℕ
contents r = held r.ring r.tail r.head

-- One byte pushed into a ring with room.
abbrev pub pushed : ℕ → LogRing → LogRing
pushed b r = record r { ring = set r.ring r.head b; head = (r.head + 1) % log_ring_buf_size }

pub length-contents : (r : LogRing) → IsRing r → length (contents r) ≡ used r
length-contents r w = ground (
  arith,
  length-slice r.ring r.tail (r.head - r.tail),
  length-slice r.ring r.tail (log_ring_buf_size - r.tail),
  length-slice r.ring 0 r.head,
  length-append (slice r.ring r.tail (log_ring_buf_size - r.tail)) (slice r.ring 0 r.head),
)

pub pushed-IsRing : (b : ℕ) (r : LogRing) → IsRing r → IsRing (pushed b r)
pushed-IsRing b r w = record {
  cells = length-set r.ring r.head b ∙ w.cells;
  head_in = omega arith;
  tail_in = w.tail_in;
}

-- The three ways in which the head moves on: straight, round the end, and behind the tail.
held_straight :
    (ring : List ℕ) (tail head b : ℕ)
    → length ring ≡ log_ring_buf_size
    → tail ≤ head
    → head + 1 < log_ring_buf_size
    → held (set ring head b) tail (head + 1) ≡ held ring tail head ++ b ∷ []
held_straight ring tail head b cells order inside =
    let before : leb tail head ≡ true = ground arith in
    let after : leb tail (head + 1) ≡ true = ground arith in
    let longer : head + 1 - tail ≡ suc (head - tail) = omega arith in
    rw (before, after, longer)
      (slice-set_end ring tail (head - tail) head b (omega arith) (omega arith))

held_round :
    (ring : List ℕ) (tail head b : ℕ)
    → length ring ≡ log_ring_buf_size
    → tail ≤ head
    → head + 1 ≡ log_ring_buf_size
    → 0 < tail
    → held (set ring head b) tail 0 ≡ held ring tail head ++ b ∷ []
held_round ring tail head b cells order last positive =
    let before : leb tail head ≡ true = ground arith in
    let after : leb tail 0 ≡ false = ground arith in
    let longer : log_ring_buf_size - tail ≡ suc (head - tail) = omega arith in
    rw (before, after, longer)
      (append-nil (slice (set ring head b) tail (suc (head - tail)))
        ∙ slice-set_end ring tail (head - tail) head b (omega arith) (omega arith))

held_behind :
    (ring : List ℕ) (tail head b : ℕ)
    → length ring ≡ log_ring_buf_size
    → head + 1 < tail
    → tail < log_ring_buf_size
    → held (set ring head b) tail (head + 1) ≡ held ring tail head ++ b ∷ []
held_behind ring tail head b cells order inside =
    let before : leb tail head ≡ false = ground arith in
    let after : leb tail (head + 1) ≡ false = ground arith in
    let longer : head + 1 ≡ suc head = omega arith in
    let first = slice ring tail (log_ring_buf_size - tail) in
    rw (before, after, longer)
      (ap (λ l. l ++ slice (set ring head b) 0 (suc head))
          (slice-set_before ring tail (log_ring_buf_size - tail) head b (omega arith))
        ∙ (ap (λ l. first ++ l) (slice-set_end ring 0 head head b (omega arith) (omega arith))
            ∙ sym (append_assoc first (slice ring 0 head) (b ∷ []))))

pub contents-pushed :
    (b : ℕ) (r : LogRing)
    → IsRing r
    → ((r.head + 1) % log_ring_buf_size == r.tail) ≡ false
    → contents (pushed b r) ≡ contents r ++ b ∷ []
contents-pushed b r w room = elim (Bool-cases (leb r.tail r.head)) [
  | inl order ↦ elim (Bool-cases (ltb (r.head + 1) log_ring_buf_size)) [
    | inl inside ↦
        let next : (r.head + 1) % log_ring_buf_size ≡ r.head + 1 = ground arith in
        ap (λ (h : ℕ). held (set r.ring r.head b) r.tail h) next
        ∙ held_straight r.ring r.tail r.head b w.cells (ground arith) (ground arith)
    | inr last ↦
        let next : (r.head + 1) % log_ring_buf_size ≡ 0 = ground arith in
        ap (λ (h : ℕ). held (set r.ring r.head b) r.tail h) next
        ∙ held_round r.ring r.tail r.head b w.cells (ground arith) (ground arith) (ground arith)
  ]
  | inr behind ↦
      let next : (r.head + 1) % log_ring_buf_size ≡ r.head + 1 = ground arith in
      ap (λ (h : ℕ). held (set r.ring r.head b) r.tail h) next
      ∙ held_behind r.ring r.tail r.head b w.cells (ground arith) w.tail_in
]
