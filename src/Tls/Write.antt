-- ===== src/Tls/Write.antt =====
-- The write loop of main/network/tls_client.c.
use esp32_deskflow.Prelude.{
  ℕ, suc, ◌+◌, ◌-◌, ◌*◌, ◌≤◌, ◌<◌, ◌≡◌, refl, sym, ap, ◌∙◌, arith, ◌⊎◌, inl, inr, min, ℤ, pos,
  negsuc, true, false, not, ◌||◌, List, [], ◌∷◌, ◌++◌, append_assoc, length, drop, slice, leb, ltb,
  if◌then◌else◌, some, Bool-cases, ltb→le, drop-all, length-append, length-slice, slice-drop,
}
use esp32_deskflow.Tls.{
  TlsClient, Answer, moved, ended, timed_out, failed, dropped, write_loop, tls_client_write,
  tls_write_max_retries,
}

-- The three ends of a write of the bytes from `offset` on: all were taken and the client is as
-- before; the connection broke behind a front part, and the result counts what was taken; or it
-- was given up after time-outs.
abbrev pub IsWritten : List ℕ → ℕ → TlsClient → ℤ × TlsClient × List ℕ → Type 0
IsWritten buf offset c (result, c', sent) =
    (result ≡ pos (length buf)) × (sent ≡ drop offset buf) × (c' ≡ c)
    ⊎ ((rest : List ℕ) × (sent ++ rest ≡ drop offset buf)
        × (c'.connected ≡ false)
        × ((result ≡ pos (offset + length sent)) ⊎ (result ≡ negsuc 0)))

abbrev Ends : List ℕ → List Answer → ℕ → ℕ → TlsClient → Type 0
Ends buf answers offset retries c =
    (r : ℤ × TlsClient × List ℕ) × (write_loop buf answers offset retries c ≡ some r)
    × IsWritten buf offset c r

-- More bytes taken in front.
moved_on :
    (buf : List ℕ) (offset n : ℕ) (c : TlsClient) (result : ℤ) (c' : TlsClient) (sent : List ℕ)
    → offset + n ≤ length buf
    → IsWritten buf (offset + n) c (result, c', sent)
    → IsWritten buf offset c (result, c', slice buf offset n ++ sent)
moved_on buf offset n c result c' sent inside (inl (all, taken, same)) =
    inl (all, ap (λ l. slice buf offset n ++ l) taken ∙ slice-drop buf offset n, same)
moved_on buf offset n c result c' sent inside (inr (rest, front, broken, count)) =
    let counted : offset + length (slice buf offset n ++ sent) ≡ offset + n + length sent =
      omega (arith, length-append (slice buf offset n) sent, length-slice buf offset n inside) in
    inr (
      rest,
      append_assoc (slice buf offset n) sent rest
          ∙ ap (λ l. slice buf offset n ++ l) front
          ∙ slice-drop buf offset n,
      broken,
      elim count [ inl part ↦ inl (part ∙ ap pos (sym counted)) | inr gave_up ↦ inr gave_up ],
    )

-- Nothing is left to write.
all_written :
    (buf : List ℕ) (answers : List Answer) (offset retries : ℕ) (c : TlsClient)
    → ltb offset (length buf) ≡ false
    → write_loop buf answers offset retries c ≡ some (pos (length buf), c, [])
unfolding write_loop
all_written buf [] offset retries c done_ = rw done_ refl
all_written buf (moved k ∷ answers) offset retries c done_ = rw done_ refl
all_written buf (ended ∷ answers) offset retries c done_ = rw done_ refl
all_written buf (timed_out ∷ answers) offset retries c done_ = rw done_ refl
all_written buf (failed ∷ answers) offset retries c done_ = rw done_ refl

finished :
    (buf : List ℕ) (answers : List Answer) (offset retries : ℕ) (c : TlsClient)
    → ltb offset (length buf) ≡ false
    → Ends buf answers offset retries c
finished buf answers offset retries c done_ = (
  (pos (length buf), c, []),
  all_written buf answers offset retries c done_,
  inl (refl, sym (drop-all offset buf (ltb→le offset (length buf) done_)), refl),
)

-- A front part was written when the loop ends.
stopped :
    (buf : List ℕ) (offset : ℕ) (c c' : TlsClient) (result : ℤ)
    → c'.connected ≡ false
    → (result ≡ pos offset) ⊎ (result ≡ negsuc 0)
    → IsWritten buf offset c (result, c', [])
stopped buf offset c c' result broken count =
    let none_more : offset ≡ offset + 0 = omega arith in
    inr (
      drop offset buf,
      refl,
      broken,
      elim count [ inl part ↦ inl (part ∙ ap pos none_more) | inr gave_up ↦ inr gave_up ],
    )

-- With 30 answers for each byte that is left the loop ends.
write_loop_lem :
    (buf : List ℕ) (answers : List Answer) (offset retries : ℕ) (c : TlsClient)
    → retries < tls_write_max_retries
    → tls_write_max_retries * (length buf - offset) ≤ length answers + retries
    → Ends buf answers offset retries c
unfolding write_loop
write_loop_lem buf [] offset retries c few enough = finished buf [] offset retries c (ground arith)
write_loop_lem buf (moved k ∷ answers) offset retries c few enough =
    elim (Bool-cases (ltb offset (length buf))) [
      | inr done_ ↦ finished buf (moved k ∷ answers) offset retries c done_
      | inl more ↦
          let n = min (suc k) (length buf - offset) in
          let inside : offset + n ≤ length buf = ground arith in
          let progress : 1 ≤ n = ground arith in
          let ((result, c', sent), ran, how) =
            write_loop_lem buf answers (offset + n) 0 c (omega arith) (omega arith) in
          (
            (result, c', slice buf offset n ++ sent),
            rw (more, ran) refl,
            moved_on buf offset n c result c' sent inside how,
          )
    ]
write_loop_lem buf (ended ∷ answers) offset retries c few enough =
    elim (Bool-cases (ltb offset (length buf))) [
      | inr done_ ↦ finished buf (ended ∷ answers) offset retries c done_
      | inl more ↦ (
        (pos offset, record c { connected = false }, []),
        rw more refl,
        stopped buf offset c (record c { connected = false }) (pos offset) refl (inl refl),
      )
    ]
write_loop_lem buf (timed_out ∷ answers) offset retries c few enough =
    elim (Bool-cases (ltb offset (length buf))) [
      | inr done_ ↦ finished buf (timed_out ∷ answers) offset retries c done_
      | inl more ↦ elim (Bool-cases (leb tls_write_max_retries (retries + 1))) [
        | inl too_often ↦ (
          (negsuc 0, dropped c, []),
          rw (more, too_often) refl,
          stopped buf offset c (dropped c) (negsuc 0) refl (inr refl),
        )
        | inr again ↦
            let (r, ran, how) =
              write_loop_lem buf answers offset (retries + 1) c (ground arith) (omega arith) in
            (r, rw (more, again, ran) refl, how)
      ]
    ]
write_loop_lem buf (failed ∷ answers) offset retries c few enough =
    elim (Bool-cases (ltb offset (length buf))) [
      | inr done_ ↦ finished buf (failed ∷ answers) offset retries c done_
      | inl more ↦ (
        (pos offset, dropped c, []),
        rw more refl,
        stopped buf offset c (dropped c) (pos offset) refl (inl refl),
      )
    ]

-- However esp_tls answers, with 30 answers for each byte tls_client_write on an open connection
-- returns: with the length, when all bytes were taken in order and the client is as before; or with
-- the connection marked as broken behind a front part of the bytes, and the length of that part or -1.
pub tls_client_write_lem :
    (buf : List ℕ) (answers : List Answer) (c : TlsClient)
    → c.connected ≡ true
    → c.tls ≡ true
    → tls_write_max_retries * length buf ≤ length answers
    → (r : ℤ × TlsClient × List ℕ) × (tls_client_write buf answers c ≡ some r) × IsWritten buf 0 c r
unfolding tls_client_write
tls_client_write_lem buf answers c on set_up enough =
    let (r, ran, how) = write_loop_lem buf answers 0 0 c (omega arith) (omega arith) in
    let open_ : (not c.connected || not c.tls) ≡ false = ground arith in
    (
      r,
      ap (λ t. if t then some (negsuc 0, c, []) else write_loop buf answers 0 0 c) open_ ∙ ran,
      how,
    )
