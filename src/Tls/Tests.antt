-- ===== src/Tls/Tests.antt =====
-- The TLS client of main/network/tls_client.c at concrete inputs.
use esp32_deskflow.Prelude.{
  ℕ, ◌+◌, ◌≡◌, refl, arith, pos, ℤ, true, false, List, [], ◌∷◌, replicate, some, codes,
}
use esp32_deskflow.Config.Certs.{Cert, Certs}
use esp32_deskflow.Tls.{
  TlsClient, Answer, moved, ended, timed_out, tls_client_create, tls_client_close,
  tls_client_connect, write_loop, tls_client_write,
}
use esp32_deskflow.Tls.Write.{IsWritten, tls_client_write_lem}
use esp32_deskflow.Tls.Sessions.{
  overwritten, created, connecting, writing, IsBalanced, Reach-IsBalanced,
}

abbrev up : TlsClient
up = record {
  server = codes "desk.local";
  port = 24800;
  connected = true;
  tls = true;
  opened = 1;
  destroyed = 0;
}

-- Two bytes in two steps, with a time-out between.
abbrev halting : List Answer
halting = moved 0 ∷ timed_out ∷ replicate 60 (moved 0)

tls_client_write_lem_example :
    (r : ℤ × TlsClient × List ℕ) × (tls_client_write (7 ∷ 8 ∷ []) halting up ≡ some r)
    × IsWritten (7 ∷ 8 ∷ []) 0 up r
tls_client_write_lem_example = tls_client_write_lem (7 ∷ 8 ∷ []) halting up refl refl (omega arith)

abbrev cert : Cert
cert = record { buf = some (65 ∷ 0 ∷ []); len = 2 }

abbrev certs : Certs
certs = record { ca = cert; client_cert = cert; client_key = cert }

abbrev idle : TlsClient
idle = tls_client_create (codes "desk.local") 24800

-- A client that has connected, whose write ended on a closed connection, and that connects again.
abbrev first : TlsClient
first = (tls_client_connect certs true true idle).1

abbrev half_shut : TlsClient
half_shut = record first { connected = false }

write_ended : tls_client_write (7 ∷ []) (ended ∷ []) first ≡ some (pos 0, half_shut, [])
unfolding tls_client_connect tls_client_write write_loop tls_client_create
write_ended = refl

again_lost : overwritten (tls_client_connect certs true true half_shut).0 half_shut ≡ 1
unfolding tls_client_connect tls_client_create
again_lost = refl

Reach-IsBalanced_example :
    (let c = (tls_client_connect certs true true half_shut).1 in
      let lost =
        overwritten (tls_client_connect certs true true idle).0 idle
        + overwritten (tls_client_connect certs true true half_shut).0 half_shut in
      IsBalanced lost c × ((tls_client_close c).opened ≡ (tls_client_close c).destroyed + lost))
unfolding tls_client_connect tls_client_create
Reach-IsBalanced_example =
    Reach-IsBalanced
      (overwritten (tls_client_connect certs true true idle).0 idle
        + overwritten (tls_client_connect certs true true half_shut).0 half_shut)
      (tls_client_connect certs true true half_shut).1
      (connecting _ half_shut certs true true (
        writing _ first (7 ∷ []) (ended ∷ []) (pos 0, half_shut, [])
          (connecting 0 idle certs true true (created (codes "desk.local") 24800)) write_ended))
