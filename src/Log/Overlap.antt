-- ===== src/Log/Overlap.antt =====
-- Two tasks in the loop of web_log_push of main/web/web_server.c, which takes no lock.
use esp32_deskflow.Prelude.{
  ℕ, zero, suc, ◌+◌, ◌%◌, ◌==◌, ◌≡◌, refl, sym, ap, ◌∙◌, Bool, true, false, List, [], ◌∷◌, set,
  if◌then◌else◌,
}
use esp32_deskflow.Esp.{done}
use esp32_deskflow.Log.{LogRing, log_ring_buf_size, push_loop}

-- Where a task is that pushes one byte: in front of the test, with `next` in front of the write into the
-- ring, with it in front of the write of the head, or behind the loop.
pub data Phase : Type 0 where
  testing : Phase
  writing advancing : ℕ → Phase
  finished : Phase

-- What a task does between two accesses of the shared variables, for the byte `b`.
unfoldable pub push_access : ℕ → Phase → LogRing → Phase × LogRing
push_access b testing r =
    let next = (r.head + 1) % log_ring_buf_size in
    if next == r.tail then (finished, r) else (writing next, r)
push_access b (writing next) r = (advancing next, record r { ring = set r.ring r.head b })
push_access b (advancing next) r = (finished, record r { head = next })
push_access b finished r = (finished, r)

-- Two tasks, the first with byte `a` and the second with `b`, in the order that is given: true for the
-- first.
unfoldable pub interleaved : List Bool → ℕ → ℕ → Phase → Phase → LogRing → LogRing
unfolding push_access
interleaved [] a b p q r = r
interleaved (true ∷ turns) a b p q r =
    let (p', r') = push_access a p r in interleaved turns a b p' q r'
interleaved (false ∷ turns) a b p q r =
    let (q', r') = push_access b q r in interleaved turns a b p q' r'

set-set : (l : List ℕ) (i a b : ℕ) → set (set l i a) i b ≡ set l i b
set-set [] i a b = refl
set-set (x ∷ l) zero a b = refl
set-set (x ∷ l) (suc i) a b = ap (λ m. x ∷ m) (set-set l i a b)

tested :
    (b : ℕ) (r : LogRing)
    → ((r.head + 1) % log_ring_buf_size == r.tail) ≡ false
    → push_access b testing r ≡ (writing ((r.head + 1) % log_ring_buf_size), r)
unfolding push_access
tested b r room =
    ap (λ t. if t then (finished, r) else (writing ((r.head + 1) % log_ring_buf_size), r)) room

first_turn :
    (turns : List Bool) (a b : ℕ) (p q : Phase) (r : LogRing) (p' : Phase) (r' : LogRing)
    → push_access a p r ≡ (p', r')
    → interleaved (true ∷ turns) a b p q r ≡ interleaved turns a b p' q r'
unfolding interleaved
first_turn turns a b p q r p' r' e = ap (λ (x : Phase × LogRing). interleaved turns a b x.0 q x.1) e

second_turn :
    (turns : List Bool) (a b : ℕ) (p q : Phase) (r : LogRing) (q' : Phase) (r' : LogRing)
    → push_access b q r ≡ (q', r')
    → interleaved (false ∷ turns) a b p q r ≡ interleaved turns a b p q' r'
unfolding interleaved
second_turn turns a b p q r q' r' e =
    ap (λ (x : Phase × LogRing). interleaved turns a b p x.0 x.1) e

abbrev pushed_one : ℕ → LogRing → LogRing
pushed_one b r = record r { ring = set r.ring r.head b; head = (r.head + 1) % log_ring_buf_size }

push_loop_one :
    (b : ℕ) (bytes : List ℕ) (left : ℕ) (r : LogRing)
    → ((r.head + 1) % log_ring_buf_size == r.tail) ≡ false
    → push_loop (suc left) (b ∷ bytes) r ≡ push_loop left bytes (pushed_one b r)
unfolding push_loop
push_loop_one b bytes left r room =
    ap (λ t. if t then done r else push_loop left bytes (pushed_one b r)) room

-- With room for two bytes: one task behind the other leaves the ring that pushing both bytes leaves; turn by
-- turn they leave the ring that pushing the second byte alone leaves, and the first is lost.
pub interleaved_lem :
    (a b : ℕ) (r : LogRing)
    → ((r.head + 1) % log_ring_buf_size == r.tail) ≡ false
    → (((r.head + 1) % log_ring_buf_size + 1) % log_ring_buf_size == r.tail) ≡ false
    → (push_loop 2 (a ∷ b ∷ []) r
        ≡ done
            (interleaved (true ∷ true ∷ true ∷ false ∷ false ∷ false ∷ []) a b testing testing r))
      × (push_loop 1 (b ∷ []) r
          ≡ done
              (interleaved (true ∷ false ∷ true ∷ false ∷ true ∷ false ∷ []) a b testing testing r))
unfolding interleaved push_access push_loop
interleaved_lem a b r room room' =
    let next = (r.head + 1) % log_ring_buf_size in
    let one = pushed_one a r in
    let turns = true ∷ true ∷ false ∷ false ∷ false ∷ [] in
    let crossed = false ∷ true ∷ false ∷ true ∷ false ∷ [] in
    (
      push_loop_one a (b ∷ []) 1 r room
          ∙ push_loop_one b [] 0 one room'
          ∙ sym (
              ap done (
                first_turn turns a b testing testing r (writing next) r (tested a r room)
                ∙ second_turn (false ∷ false ∷ []) a b finished testing one _ one
                    (tested b one room'))),
      push_loop_one b [] 0 r room
          ∙ ap (λ l. done (record r { ring = l; head = next })) (sym (set-set r.ring r.head a b))
          ∙ sym (
              ap done (
                first_turn crossed a b testing testing r (writing next) r (tested a r room)
                ∙ second_turn (true ∷ false ∷ true ∷ false ∷ []) a b (writing next) testing r
                    (writing next) r (tested b r room))),
    )
