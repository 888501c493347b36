-- ===== src/Config/Certs/Pem.antt =====
-- What `_read_pem` of main/config/config.c makes of a certificate file.
use esp32_deskflow.Prelude.{
  ℕ, zero, suc, ◌+◌, ◌-◌, ◌≤◌, ◌<◌, ◌≡◌, refl, ap, subst, ◌∙◌, arith, inl, inr, Bool, true, false,
  not, ◌||◌, List, [], ◌∷◌, ◌++◌, length, take, set, get_or, ltb, ◌==◌, if◌then◌else◌, some,
  Bool-cases, length-set, length-append, length-take, get_or-take, take-set_end, take-append_all,
}
use esp32_deskflow.Esp.{Outcome, done, fault, ◌>>=◌}
use esp32_deskflow.Config.Certs.{Cert, store, strip, newline_ended, terminate, read_pem}
use esp32_deskflow.Config.Certs.Strip.{without_cr, unterminated, finished, clean, strip_lem}

-- The end of the text is where the loop stopped writing.
unterminated-take :
    (w : ℕ) (b : List ℕ)
    → w < length b
    → ((w == 0) || not (get_or b (w - 1) 0 == 10)) ≡ unterminated (take w b)
unterminated-take zero b h = refl
unterminated-take (suc w) b h =
    let cells = length-take (suc w) b (omega arith) in
    let last : suc w - 1 ≡ w = omega arith in
    rw (cells, last, get_or-take b w (suc w) 0 (omega arith)) refl

store_inside : (b : List ℕ) (i v : ℕ) → i < length b → store b i v ≡ done (set b i v)
store_inside b i v h = let inside : ltb i (length b) ≡ true = ground arith in rw inside refl

store_outside : (b : List ℕ) (i v : ℕ) → length b ≤ i → store b i v ≡ fault
store_outside b i v h = let outside : ltb i (length b) ≡ false = ground arith in rw outside refl

newline_ended_lem :
    (w : ℕ) (b : List ℕ)
    → w < length b
    → (b' : List ℕ) × (newline_ended w b ≡ done (length (finished (take w b)), b'))
      × (take (length (finished (take w b))) b' ≡ finished (take w b))
      × (length b' ≡ length b)
newline_ended_lem w b h =
    let cells = length-take w b (omega arith) in
    let same = unterminated-take w b h in
    let branch =
      λ (t : Bool). if t then store b w 10 >>= (λ b'. done (w + 1, b')) else done (w, b) in
    elim (Bool-cases (unterminated (take w b))) [
      | inl open_end ↦
          let next : length (take w b ++ 10 ∷ []) ≡ suc w =
            omega (arith, length-append (take w b) (10 ∷ []), cells) in
          let after : w + 1 ≡ suc w = omega arith in
          (
            set b w 10,
            ap branch (same ∙ open_end)
                ∙ ap (λ o. o >>= (λ b'. done (w + 1, b'))) (store_inside b w 10 h)
                ∙ rw (open_end, next, after) refl,
            rw (open_end, next) (take-set_end b w 10 h),
            length-set b w 10,
          )
      | inr ended ↦
          (b, ap branch (same ∙ ended) ∙ rw (ended, cells) refl, rw (ended, cells) refl, refl)
    ]

-- The number of bytes that the loop leaves of a file in an array one byte longer.
abbrev stripped : List ℕ → ℕ → ℕ × List ℕ
stripped content stale = strip (length content) 0 0 (content ++ stale ∷ [])

stripped_lem :
    (content : List ℕ) (stale : ℕ)
    → (take (stripped content stale).0 (stripped content stale).1 ≡ without_cr content)
      × ((stripped content stale).0 < length (stripped content stale).1)
      × (length (stripped content stale).1 ≡ length content + 1)
stripped_lem content stale =
    let longer : length (content ++ stale ∷ []) ≡ length content + 1 =
      length-append content (stale ∷ []) in
    let r =
      strip_lem (length content) 0 0 (content ++ stale ∷ []) (omega arith)
        (omega (arith, longer)) in
    (
      r.kept ∙ ap without_cr (take-append_all content (stale ∷ [])),
      omega (arith, r.behind, r.cells, longer),
      r.cells ∙ longer,
    )

finished_lem :
    (content : List ℕ) (stale : ℕ)
    → (b' : List ℕ) × (newline_ended (stripped content stale).0 (stripped content stale).1
        ≡ done (length (clean content), b'))
      × (take (length (clean content)) b' ≡ clean content)
      × (length b' ≡ length content + 1)
finished_lem content stale =
    let (w, b) = stripped content stale in
    let (kept, inside, cells) = stripped_lem content stale in
    let (b', ran, front, cells') = newline_ended_lem w b inside in
    (
      b',
      subst (λ text. newline_ended w b ≡ done (length (finished text), b')) kept ran,
      subst (λ text. take (length (finished text)) b' ≡ finished text) kept front,
      cells' ∙ cells,
    )

-- The terminator in the array of `finished_lem`.
abbrev end_with : ℕ × List ℕ → Outcome Cert
end_with p = store p.1 p.0 0 >>= λ b'. done (record { buf = some b'; len = p.0 + 1 })

abbrev cert_of : List ℕ → List ℕ → Cert
cert_of content buf = record { buf = some buf; len = length (clean content) + 1 }

-- The new buffer has room for the text and a terminator unless the text grew by its newline.
terminate_lem :
    (content : List ℕ) (stale : ℕ)
    → length (clean content) ≤ length content
    → (buf : List ℕ) × (terminate (stripped content stale) ≡ done (cert_of content buf))
      × (take (length (clean content) + 1) buf ≡ clean content ++ 0 ∷ [])
terminate_lem content stale fits =
    let (b', ran, front, cells) = finished_lem content stale in
    let inside : length (clean content) < length b' = omega (arith, cells) in
    let after : length (clean content) + 1 ≡ suc (length (clean content)) = omega arith in
    (
      set b' (length (clean content)) 0,
      ap (λ o. o >>= end_with) ran
          ∙ ap (λ o. o >>= λ b''. done (cert_of content b''))
              (store_inside b' (length (clean content)) 0 inside),
      ap (λ n. take n (set b' (length (clean content)) 0)) after
          ∙ take-set_end b' (length (clean content)) 0 inside
          ∙ ap (λ l. l ++ 0 ∷ []) front,
    )

terminate_overrun :
    (content : List ℕ) (stale : ℕ)
    → length content < length (clean content)
    → terminate (stripped content stale) ≡ fault
terminate_overrun content stale long =
    let (b', ran, front, cells) = finished_lem content stale in
    ap (λ o. o >>= end_with) ran
    ∙ ap (λ o. o >>= λ b''. done (cert_of content b''))
        (store_outside b' (length (clean content)) 0 (omega (arith, cells)))

read_pem_opened :
    (content : List ℕ) (stale : ℕ)
    → 0 < length content
    → read_pem (record { content = some content; allocated = true; stale = stale })
      ≡ (terminate (stripped content stale) >>= λ cert. done (some cert))
unfolding read_pem
read_pem_opened [] stale h = absurd (omega arith)
read_pem_opened (c ∷ cs) stale h = refl

-- A certificate file that is not shorter than its text without carriage returns and with a newline at
-- the end is read as that text and a terminator, which the noted length counts.
pub read_pem_lem :
    (content : List ℕ) (stale : ℕ)
    → 0 < length content
    → length (clean content) ≤ length content
    → (buf : List ℕ) × (read_pem
          (record { content = some content; allocated = true; stale = stale })
        ≡ done (some (record { buf = some buf; len = length (clean content) + 1 })))
      × (take (length (clean content) + 1) buf ≡ clean content ++ 0 ∷ [])
read_pem_lem content stale some_text fits =
    let (buf, ran, front) = terminate_lem content stale fits in
    (
      buf,
      read_pem_opened content stale some_text ∙ ap (λ o. o >>= λ cert. done (some cert)) ran,
      front,
    )

-- A certificate file without carriage returns whose last byte is not a newline makes `_read_pem`
-- write one byte past the buffer that it allocated.
pub read_pem_overrun :
    (content : List ℕ) (stale : ℕ)
    → 0 < length content
    → without_cr content ≡ content
    → unterminated content ≡ true
    → read_pem (record { content = some content; allocated = true; stale = stale }) ≡ fault
read_pem_overrun content stale some_text no_cr open_end =
    let grown : clean content ≡ content ++ 10 ∷ [] = ap finished no_cr ∙ rw open_end refl in
    let long : length content < length (clean content) =
      omega (arith, ap length grown, length-append content (10 ∷ [])) in
    read_pem_opened content stale some_text
    ∙ ap (λ o. o >>= λ cert. done (some cert)) (terminate_overrun content stale long)
