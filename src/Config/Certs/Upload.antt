-- ===== src/Config/Certs/Upload.antt =====
-- A certificate that `config_upload_cert` of main/config/config.c takes, and the same file read at the
-- next start.
use esp32_deskflow.Prelude.{
  ℕ, ◌+◌, ◌<◌, ◌≡◌, refl, ap, subst, arith, true, List, [], ◌∷◌, ◌++◌, length, ltb, some, take,
}
use esp32_deskflow.Esp.{esp_ok, done}
use esp32_deskflow.Config.Certs.{Certs, Uploading, put, config_upload_cert, read_pem}
use esp32_deskflow.Config.Certs.Strip.{clean}
use esp32_deskflow.Config.Certs.Pem.{read_pem_lem}

abbrev pub all_well : Uploading
all_well = record { mounted = true; opened = true; allocated = true }

-- A certificate that needs no cleaning is held with its length at once after an upload, and with a
-- length that is larger by 1, the terminator included, when the file that was written is read again.
pub upload_counts_short :
    (type : ℕ) (content : List ℕ) (stale : ℕ) (certs : Certs)
    → type < 3
    → 0 < length content
    → clean content ≡ content
    → (config_upload_cert all_well type content certs ≡ (
      esp_ok,
      some content,
      put type (record { buf = some (content ++ 0 ∷ []); len = length content }) certs,
    ))
      × ((buf : List ℕ) × (read_pem
              (record { content = some content; allocated = true; stale = stale })
            ≡ done (some (record { buf = some buf; len = length content + 1 })))
          × (take (length content + 1) buf ≡ content ++ 0 ∷ []))
unfolding config_upload_cert
upload_counts_short type content stale certs known some_text same =
    let inside : ltb type 3 ≡ true = ground arith in
    let (buf, ran, front) = read_pem_lem content stale some_text (omega (arith, ap length same)) in
    (
      rw inside refl,
      (
        buf,
        subst
            (λ (t : List ℕ).
              read_pem (record { content = some content; allocated = true; stale = stale })
              ≡ done (some (record { buf = some buf; len = length t + 1 })))
            same ran,
        subst (λ (t : List ℕ). take (length t + 1) buf ≡ t ++ 0 ∷ []) same front,
      ),
    )
