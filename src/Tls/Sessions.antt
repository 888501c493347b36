-- ===== src/Tls/Sessions.antt =====
-- The esp_tls sessions that main/network/tls_client.c opens and destroys.
use esp32_deskflow.Prelude.{
  ℕ, suc, ◌+◌, ◌-◌, ◌≡◌, refl, sym, subst, min, negsuc, slice, arith, inl, inr, ℤ, Bool, true,
  false, not, ◌&&◌, ◌||◌, List, [], ◌∷◌, ◌++◌, length, leb, ltb, if◌then◌else◌, Option, none, some,
  Bool-cases,
}
use esp32_deskflow.Esp.{EspErr, is_ok}
use esp32_deskflow.Config.Certs.{Certs}
use esp32_deskflow.Tls.{
  TlsClient, Answer, moved, ended, timed_out, failed, dropped, tls_client_create, tls_client_close,
  tls_client_connect, tls_client_read, write_loop, tls_client_write, tls_write_max_retries,
}

-- The session that a connection loses: a write that ended on a closed connection left it, and the new
-- one takes its place.
abbrev pub overwritten : EspErr → TlsClient → ℕ
overwritten err c = if is_ok err && (not c.connected && c.tls) then 1 else 0

-- The clients that the operations lead to, in any order, with the number of sessions lost so far.
pub data Reach : ℕ → TlsClient → Type 0 where
  created : (server : List ℕ) (port : ℕ) → Reach 0 (tls_client_create server port)
  closed : (lost : ℕ) (c : TlsClient) → Reach lost c → Reach lost (tls_client_close c)
  connecting :
      (lost : ℕ) (c : TlsClient) (certs : Certs) (init_ok conn_ok : Bool)
      → Reach lost c
      → Reach
          (lost + overwritten (tls_client_connect certs init_ok conn_ok c).0 c)
          (tls_client_connect certs init_ok conn_ok c).1
  reading :
      (lost : ℕ) (c : TlsClient) (answer : Answer) (len : ℕ)
      → Reach lost c
      → Reach lost (tls_client_read answer len c).1
  writing :
      (lost : ℕ) (c : TlsClient) (buf : List ℕ) (answers : List Answer) (r : ℤ × TlsClient × List ℕ)
      → Reach lost c
      → tls_client_write buf answers c ≡ some r
      → Reach lost r.1

-- The sessions that are open.
abbrev pub held : TlsClient → ℕ
held c = if c.tls then 1 else 0

-- A connected client has a session, and every session but that and the lost ones was destroyed, once.
pub record IsBalanced (lost : ℕ) (c : TlsClient) : Type 0 where
  pub backed : (c.connected && not c.tls) ≡ false
  pub balanced : c.opened ≡ c.destroyed + held c + lost

close-IsBalanced :
    (lost : ℕ) (c : TlsClient) → IsBalanced lost c → IsBalanced lost (tls_client_close c)
unfolding tls_client_close
close-IsBalanced lost c w = ground arith

dropped-IsBalanced :
    (lost : ℕ) (c : TlsClient) → IsBalanced lost c → c.tls ≡ true → IsBalanced lost (dropped c)
dropped-IsBalanced lost c w on = ground arith

connect-IsBalanced :
    (lost : ℕ) (c : TlsClient) (certs : Certs) (init_ok conn_ok : Bool)
    → IsBalanced lost c
    → IsBalanced
        (lost + overwritten (tls_client_connect certs init_ok conn_ok c).0 c)
        (tls_client_connect certs init_ok conn_ok c).1
unfolding tls_client_connect tls_client_close
connect-IsBalanced lost c certs init_ok conn_ok w = ground arith

read-IsBalanced :
    (lost : ℕ) (c : TlsClient) (answer : Answer) (len : ℕ)
    → IsBalanced lost c
    → IsBalanced lost (tls_client_read answer len c).1
unfolding tls_client_read
read-IsBalanced lost c answer len w = ground arith

-- The client that a run of the loop leaves, if it ends.
abbrev Left : ℕ → Option (ℤ × TlsClient × List ℕ) → Type 0
Left lost none = Unit
Left lost (some r) = IsBalanced lost r.1

front_added :
    (lost : ℕ) (o : Option (ℤ × TlsClient × List ℕ)) (front : List ℕ)
    → Left lost o
    → Left lost
        (elim o [ none ↦ none | some (result, c', sent) ↦ some (result, c', front ++ sent) ])
front_added lost none front h = tt
front_added lost (some r) front h = h

loop-Left :
    (lost : ℕ) (buf : List ℕ) (answers : List Answer) (offset retries : ℕ) (c : TlsClient)
    → IsBalanced lost c
    → c.tls ≡ true
    → Left lost (write_loop buf answers offset retries c)
unfolding write_loop
loop-Left lost buf [] offset retries c w on = elim (Bool-cases (ltb offset (length buf))) [
  | inl more ↦ rw more tt
  | inr done_ ↦ rw done_ w
]
loop-Left lost buf (moved k ∷ answers) offset retries c w on =
    elim (Bool-cases (ltb offset (length buf))) [
      | inl more ↦
          let n = min (suc k) (length buf - offset) in
          rw more (
            front_added lost (write_loop buf answers (offset + n) 0 c) (slice buf offset n)
              (loop-Left lost buf answers (offset + n) 0 c w on))
      | inr done_ ↦ rw done_ w
    ]
loop-Left lost buf (ended ∷ answers) offset retries c w on =
    elim (Bool-cases (ltb offset (length buf))) [
      | inl more ↦ rw more (record { backed = refl; balanced = w.balanced })
      | inr done_ ↦ rw done_ w
    ]
loop-Left lost buf (timed_out ∷ answers) offset retries c w on =
    elim (Bool-cases (ltb offset (length buf))) [
      | inl more ↦ elim (Bool-cases (leb tls_write_max_retries (retries + 1))) [
        | inl too_often ↦ rw (more, too_often) (dropped-IsBalanced lost c w on)
        | inr again ↦ rw (more, again) (loop-Left lost buf answers offset (retries + 1) c w on)
      ]
      | inr done_ ↦ rw done_ w
    ]
loop-Left lost buf (failed ∷ answers) offset retries c w on =
    elim (Bool-cases (ltb offset (length buf))) [
      | inl more ↦ rw more (dropped-IsBalanced lost c w on)
      | inr done_ ↦ rw done_ w
    ]

write-Left :
    (lost : ℕ) (buf : List ℕ) (answers : List Answer) (c : TlsClient)
    → IsBalanced lost c
    → Left lost (tls_client_write buf answers c)
unfolding tls_client_write
write-Left lost buf answers c w = elim (Bool-cases (not c.connected || not c.tls)) [
  | inl shut ↦
      subst (λ t. Left lost (if t then some (negsuc 0, c, []) else write_loop buf answers 0 0 c))
        (sym shut) w
  | inr open_ ↦
      subst (λ t. Left lost (if t then some (negsuc 0, c, []) else write_loop buf answers 0 0 c))
        (sym open_) (loop-Left lost buf answers 0 0 c w (ground arith))
]

reached : (lost : ℕ) (c : TlsClient) → Reach lost c → IsBalanced lost c
unfolding tls_client_create
reached _ _ (created server port) = record { backed = refl; balanced = refl }
reached _ _ (closed lost c reach) = close-IsBalanced lost c (reached lost c reach)
reached _ _ (connecting lost c certs init_ok conn_ok reach) =
    connect-IsBalanced lost c certs init_ok conn_ok (reached lost c reach)
reached _ _ (reading lost c answer len reach) =
    read-IsBalanced lost c answer len (reached lost c reach)
reached _ _ (writing lost c buf answers r reach ran) =
    subst (Left lost) ran (write-Left lost buf answers c (reached lost c reach))

closed_balanced :
    (lost : ℕ) (c : TlsClient)
    → IsBalanced lost c
    → (tls_client_close c).opened ≡ (tls_client_close c).destroyed + lost
unfolding tls_client_close
closed_balanced lost c w = ground arith

-- Whatever the operations, in any order, and the answers of esp_tls: a connected client has a session,
-- and every session but the one that the client holds and the lost ones was destroyed; closing leaves
-- open only those that are lost. A session is lost with each connection that succeeds on a client
-- that is not connected and holds one.
pub Reach-IsBalanced :
    (lost : ℕ) (c : TlsClient)
    → Reach lost c
    → IsBalanced lost c × ((tls_client_close c).opened ≡ (tls_client_close c).destroyed + lost)
Reach-IsBalanced lost c reach =
    (reached lost c reach, closed_balanced lost c (reached lost c reach))
