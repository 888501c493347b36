-- ===== src/Client/Greeting.antt =====
-- The format of the client's hello in main/barrier/barrier_client.c.
use esp32_deskflow.Prelude.{
  ℕ, zero, suc, ◌+◌, ◌≤◌, ◌<◌, ◌≡◌, refl, sym, ap, ◌∙◌, subst, arith, List, [], ◌∷◌, ◌++◌, length,
  take, drop, set, append_assoc, append-nil, spread-eq, length-drop, length-append,
}
use esp32_deskflow.Io.{io_write_u16_be, io_write_u32_be}
use esp32_deskflow.Io.Laws.{stored32}
use esp32_deskflow.Packet.Wire.{be16, be32}
use esp32_deskflow.Client.Hello.{
  barrier_server_hello, barrier_client_major, barrier_client_minor, write_bytes, client_hello,
}

-- The bytes before the name, for a name of `n` bytes.
abbrev pub hello_head : ℕ → List ℕ
hello_head n =
    be32 (15 + n)
    ++ (barrier_server_hello
        ++ (be16 barrier_client_major ++ (be16 barrier_client_minor ++ be32 n)))

set-append : (pre rs : List ℕ) (r b : ℕ) → set (pre ++ r ∷ rs) (length pre) b ≡ pre ++ b ∷ rs
set-append [] rs r b = refl
set-append (p ∷ pre) rs r b = ap (λ l. p ∷ l) (set-append pre rs r b)

write_bytes-append :
    (bs pre rest : List ℕ) (i : ℕ)
    → i ≡ length pre
    → length bs ≤ length rest
    → write_bytes (pre ++ rest) i bs ≡ (pre ++ bs) ++ drop (length bs) rest
write_bytes-append [] pre rest i e h = ap (λ l. l ++ rest) (sym (append-nil pre))
write_bytes-append (b ∷ bs) pre [] i e h = absurd (omega arith)
write_bytes-append (b ∷ bs) pre (r ∷ rs) i e h =
    let put : set (pre ++ r ∷ rs) i b ≡ (pre ++ b ∷ []) ++ rs =
      rw e (set-append pre rs r b ∙ sym (append_assoc pre (b ∷ []) rs)) in
    let there : i + 1 ≡ length (pre ++ b ∷ []) = omega (arith, e, length-append pre (b ∷ [])) in
    rw put (
      write_bytes-append bs (pre ++ b ∷ []) rs (i + 1) there (omega arith)
      ∙ ap (λ l. l ++ drop (length bs) rs) (append_assoc pre (b ∷ []) bs))

-- The writes before the name.
abbrev write_head : ℕ → List ℕ → List ℕ
write_head n buf =
    let buf = write_bytes (io_write_u32_be buf 0 (15 + n)) 4 barrier_server_hello in
    let buf = io_write_u16_be buf 11 barrier_client_major in
    io_write_u32_be (io_write_u16_be buf 13 barrier_client_minor) 15 n

write_head_lem :
    (n : ℕ) (buf : List ℕ)
    → n < 1000
    → 19 ≤ length buf
    → write_head n buf ≡ hello_head n ++ drop 19 buf
unfolding io_write_u32_be io_write_u16_be
write_head_lem n buf small room =
    subst (λ b. write_head n b ≡ hello_head n ++ drop 19 b) (spread-eq 19 0 buf room)
      (ground (arith, stored32 (15 + n), stored32 n))

take-append_all : (xs ys : List ℕ) (n : ℕ) → n ≡ length xs → take n (xs ++ ys) ≡ xs
take-append_all [] ys zero e = refl
take-append_all [] ys (suc n) e = absurd (omega arith)
take-append_all (x ∷ xs) ys zero e = absurd (omega arith)
take-append_all (x ∷ xs) ys (suc n) e = ap (λ l. x ∷ l) (take-append_all xs ys n (omega arith))

-- The client's hello for a name of fewer than 1000 bytes, in a buffer with room for it: the 32-bit
-- length of what follows, "Barrier", version 1.6, and the name behind its 32-bit length; its
-- reported length is that of these bytes.
pub client_hello_format :
    (name buf : List ℕ)
    → length name < 1000
    → 19 + length name ≤ length buf
    → (let (buf', len) = client_hello name buf in
        (take len buf' ≡ hello_head (length name) ++ name) × (len ≡ 4 + (15 + length name)))
unfolding client_hello
client_hello_format name buf small room =
    let n = length name in
    let rest = drop 19 buf in
    let fits : n ≤ length rest = omega (arith, length-drop 19 buf) in
    let body : write_bytes (hello_head n ++ rest) 19 name ≡ (hello_head n ++ name) ++ drop n rest =
      write_bytes-append name (hello_head n) rest 19 refl fits in
    let long : 19 + n ≡ length (hello_head n ++ name) =
      omega (arith, length-append (hello_head n) name) in
    (
      ap (λ b. take (19 + n) (write_bytes b 19 name)) (write_head_lem n buf small (omega arith))
          ∙ (ap (λ b. take (19 + n) b) body
              ∙ take-append_all (hello_head n ++ name) (drop n rest) (19 + n) long),
      omega arith,
    )
