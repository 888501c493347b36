-- ===== src/Log/Queue.antt =====
-- The log ring of main/web/web_server.c is a queue of at most 2047 bytes.
use esp32_deskflow.Prelude.{
  ℕ, zero, suc, ◌+◌, ◌-◌, ◌*◌, ◌/◌, ◌%◌, ◌≤◌, ◌<◌, ◌≡◌, ◌⊎◌, inl, inr, refl, sym, ap, ◌∙◌, subst,
  arith, true, false, not, List, [], ◌∷◌, ◌++◌, append_assoc, append-nil, length, take, slice, leb,
  ltb, ◌==◌, if◌then◌else◌, Bool-cases, length-append, take_all,
}
use esp32_deskflow.Esp.{is_ok, done, ◌>>=◌}
use esp32_deskflow.Log.{
  LogRing, Sends, log_ring_buf_size, used, web_log_drain, push_loop, drain_if_high, web_log_push,
}
use esp32_deskflow.Log.Ring.{
  IsRing, held, contents, pushed, length-contents, pushed-IsRing, contents-pushed,
}

abbrev pub flat : List (List ℕ) → List ℕ
flat [] = []
flat (f ∷ fs) = f ++ flat fs

-- What a ring with `n` bytes still takes.
abbrev pub accepted : List ℕ → List ℕ → List ℕ
accepted q bytes = take (log_ring_buf_size - 1 - length q) bytes

-- The ring is full when the head would catch up with the tail.
pub full_used :
    (r : LogRing)
    → IsRing r
    → ((r.head + 1) % log_ring_buf_size == r.tail) ≡ true
    → used r ≡ log_ring_buf_size - 1
full_used r w full = ground arith

pub room_used :
    (r : LogRing)
    → IsRing r
    → ((r.head + 1) % log_ring_buf_size == r.tail) ≡ false
    → used r < log_ring_buf_size - 1
room_used r w room = ground arith

accepted_full : (q bytes : List ℕ) → length q ≡ log_ring_buf_size - 1 → q ≡ q ++ accepted q bytes
accepted_full q bytes full =
    let none_left : log_ring_buf_size - 1 - length q ≡ 0 = omega arith in
    rw none_left (sym (append-nil q))

accepted_room :
    (q : List ℕ) (b : ℕ) (bytes : List ℕ)
    → length q < log_ring_buf_size - 1
    → (q ++ b ∷ []) ++ accepted (q ++ b ∷ []) bytes ≡ q ++ accepted q (b ∷ bytes)
accepted_room q b bytes room =
    let left : log_ring_buf_size - 1 - length q
        ≡ suc (log_ring_buf_size - 1 - length (q ++ b ∷ [])) =
      omega (arith, length-append q (b ∷ [])) in
    rw left (append_assoc q (b ∷ []) (accepted (q ++ b ∷ []) bytes))

pub push_loop_lem :
    (len : ℕ) (bytes : List ℕ) (r : LogRing)
    → IsRing r
    → len ≤ length bytes
    → (r' : LogRing) × (push_loop len bytes r ≡ done r')
      × IsRing r'
      × (contents r' ≡ contents r ++ accepted (contents r) (take len bytes))
unfolding push_loop
push_loop_lem zero bytes r w h = (
  r,
  refl,
  w,
  sym (
      ap (λ l. contents r ++ l)
        (take_all (log_ring_buf_size - 1 - length (contents r)) [] (omega arith))
      ∙ append-nil (contents r)),
)
push_loop_lem (suc len) [] r w h = absurd (omega arith)
push_loop_lem (suc len) (b ∷ bytes) r w h =
    elim (Bool-cases ((r.head + 1) % log_ring_buf_size == r.tail)) [
      | inl full ↦ (
        r,
        rw full refl,
        w,
        accepted_full (contents r) (b ∷ take len bytes) (length-contents r w ∙ full_used r w full),
      )
      | inr room ↦
          let (r', ran, w', same) =
            push_loop_lem len bytes (pushed b r) (pushed-IsRing b r w) (omega arith) in
          let added = contents-pushed b r w room in
          let fits : length (contents r) < log_ring_buf_size - 1 =
            omega (arith, length-contents r w, room_used r w room) in
          (
            r',
            rw room ran,
            w',
            same
                ∙ ap (λ q. q ++ accepted q (take len bytes)) added
                ∙ accepted_room (contents r) b (take len bytes) fits,
          )
    ]

pub held_empty : (ring : List ℕ) (tail head : ℕ) → tail ≡ head → held ring tail head ≡ []
held_empty ring tail head same =
    let order : leb tail head ≡ true = ground arith in
    let nothing : head - tail ≡ 0 = omega arith in rw (order, nothing) refl

-- What a drain does to the waiting bytes `q`: it sends them all in order and leaves none, or sends a
-- front part of them and leaves them all.
abbrev pub Drained : List ℕ → List (List ℕ) → List ℕ → Type 0
Drained q frames q' =
    (flat frames ≡ q) × (q' ≡ []) ⊎ (q' ≡ q) × ((rest : List ℕ) × (flat frames ++ rest ≡ q))

drain_cases :
    (s : Sends) (r : LogRing)
    → IsRing r
    → (let (frames, r') = web_log_drain s r in
        (flat frames ≡ contents r) × (contents r' ≡ [])
        ⊎ (r' ≡ r) × ((rest : List ℕ) × (flat frames ++ rest ≡ contents r)))
unfolding web_log_drain
drain_cases s r w = elim (Bool-cases (r.tail == r.head)) [
  | inl same ↦
      let none_held = held_empty r.ring r.tail r.head (ground arith) in
      rw same (inl (sym none_held, none_held))
  | inr differ ↦ elim (Bool-cases (leb r.tail r.head)) [
    | inl order ↦ elim (Bool-cases (is_ok s.first)) [
      | inl sent ↦
          rw (differ, order, sent)
            (inl (
              append-nil (slice r.ring r.tail (r.head - r.tail)),
              held_empty r.ring r.head r.head refl,
            ))
      | inr lost ↦
          rw (differ, order, lost) (inr (refl, (slice r.ring r.tail (r.head - r.tail), refl)))
    ]
    | inr behind ↦ elim (Bool-cases (is_ok s.first)) [
      | inl sent ↦ elim (Bool-cases (is_ok s.second)) [
        | inl sent_too ↦
            rw (differ, behind, sent, sent_too)
              (inl (
                ap (λ l. slice r.ring r.tail (log_ring_buf_size - r.tail) ++ l)
                    (append-nil (slice r.ring 0 r.head)),
                held_empty r.ring r.head r.head refl,
              ))
        | inr lost ↦
            rw (differ, behind, sent, lost)
              (inr (
                refl,
                (
                  slice r.ring 0 r.head,
                  ap (λ l. l ++ slice r.ring 0 r.head)
                      (append-nil (slice r.ring r.tail (log_ring_buf_size - r.tail))),
                ),
              ))
      ]
      | inr lost ↦
          rw (differ, behind, lost)
            (inr (
              refl,
              (slice r.ring r.tail (log_ring_buf_size - r.tail) ++ slice r.ring 0 r.head, refl),
            ))
    ]
  ]
]

-- Draining sends the waiting bytes in order, in one frame or in two where they go round the end,
-- and leaves none when every frame was sent. If a frame fails, every byte stays to be sent again,
-- and what was sent is a front part of them.
pub drain_lem :
    (s : Sends) (r : LogRing)
    → IsRing r
    → Drained (contents r) (web_log_drain s r).0 (contents (web_log_drain s r).1)
drain_lem s r w = elim (drain_cases s r w) [
  | inl all ↦ inl all
  | inr kept ↦ inr (ap contents kept.0, kept.1)
]

drain-IsRing : (s : Sends) (r : LogRing) → IsRing r → IsRing (web_log_drain s r).1
unfolding web_log_drain
drain-IsRing s r w =
    let emptied : IsRing (record r { tail = r.head }) = record {
      cells = w.cells;
      head_in = w.head_in;
      tail_in = w.head_in;
    } in
    ground arith

pub push_connected :
    (s : Sends) (bytes : List ℕ) (len : ℕ) (r : LogRing)
    → r.connected ≡ true
    → web_log_push s bytes len r ≡ (push_loop len bytes r >>= λ r'. done (drain_if_high s r'))
unfolding web_log_push
push_connected s bytes len r on =
    ap
      (λ c.
        if not c then done ([], r) else push_loop len bytes r >>= λ r'. done (drain_if_high s r'))
      on

pub drain_if_high_low :
    (s : Sends) (r : LogRing)
    → ltb (log_ring_buf_size * 3 / 5) (used r) ≡ false
    → drain_if_high s r ≡ ([], r)
unfolding drain_if_high
drain_if_high_low s r low = rw low refl

drain_if_high_high :
    (s : Sends) (r : LogRing)
    → ltb (log_ring_buf_size * 3 / 5) (used r) ≡ true
    → drain_if_high s r ≡ web_log_drain s r
unfolding drain_if_high
drain_if_high_high s r high = rw high refl

-- A push whose loop ends with the ring `r'`.
pub web_log_push_ran :
    (s : Sends) (bytes : List ℕ) (len : ℕ) (r r' : LogRing)
    → r.connected ≡ true
    → push_loop len bytes r ≡ done r'
    → web_log_push s bytes len r ≡ done (drain_if_high s r')
web_log_push_ran s bytes len r r' on ran =
    push_connected s bytes len r on ∙ ap (λ o. o >>= λ r'. done (drain_if_high s r')) ran

-- Pushing while a client listens: the ring takes as many of the bytes as fit behind those that wait,
-- up to 2047, drops the rest, and then drains or leaves what waits.
pub web_log_push_lem :
    (s : Sends) (bytes : List ℕ) (len : ℕ) (r : LogRing)
    → IsRing r
    → r.connected ≡ true
    → len ≤ length bytes
    → (frames : List (List ℕ)) × (r' : LogRing) × (web_log_push s bytes len r ≡ done (frames, r'))
      × IsRing r'
      × Drained (contents r ++ accepted (contents r) (take len bytes)) frames (contents r')
web_log_push_lem s bytes len r w on h =
    let (r', ran, w', same) = push_loop_lem len bytes r w h in
    elim (Bool-cases (ltb (log_ring_buf_size * 3 / 5) (used r'))) [
      | inl high ↦ (
        (web_log_drain s r').0,
        (web_log_drain s r').1,
        web_log_push_ran s bytes len r r' on ran ∙ ap done (drain_if_high_high s r' high),
        drain-IsRing s r' w',
        subst (λ q. Drained q (web_log_drain s r').0 (contents (web_log_drain s r').1)) same
            (drain_lem s r' w'),
      )
      | inr low ↦ (
        [],
        r',
        web_log_push_ran s bytes len r r' on ran ∙ ap done (drain_if_high_low s r' low),
        w',
        inr (same, (contents r ++ accepted (contents r) (take len bytes), refl)),
      )
    ]
