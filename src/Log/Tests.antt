-- ===== src/Log/Tests.antt =====
-- The log ring buffer of main/web/web_server.c at concrete inputs.
use esp32_deskflow.Prelude.{
  ℕ, ◌≡◌, refl, arith, pos, true, false, List, [], ◌∷◌, ◌++◌, take, replicate,
}
use esp32_deskflow.Esp.{esp_ok, esp_fail, done}
use esp32_deskflow.Log.{LogRing, Sends, push_loop, web_log_push}
use esp32_deskflow.Log.Ring.{IsRing, contents}
use esp32_deskflow.Log.Overlap.{testing, interleaved, interleaved_lem}
use esp32_deskflow.Log.Queue.{accepted, Drained, web_log_push_lem}

abbrev all_sent : Sends
all_sent = record { first = esp_ok; second = esp_ok }

abbrev second_lost : Sends
second_lost = record { first = esp_ok; second = esp_fail }

-- Four bytes that go round the end, with a client.
abbrev wrapped : LogRing
wrapped = record {
  ring = 3 ∷ 4 ∷ replicate 2044 0 ++ 1 ∷ 2 ∷ [];
  head = 2;
  tail = 2046;
  fd = pos 54;
  connected = true;
}

wrapped-IsRing : IsRing wrapped
wrapped-IsRing = record { cells = refl; head_in = omega arith; tail_in = omega arith }

-- The same ring while another client was connected.
abbrev wrapped_old : LogRing
wrapped_old = record wrapped { fd = pos 53 }

wrapped_old-IsRing : IsRing wrapped_old
wrapped_old-IsRing = record { cells = refl; head_in = omega arith; tail_in = omega arith }

web_log_push_lem_example :
    (frames : List (List ℕ)) × (r' : LogRing) × (web_log_push all_sent (5 ∷ 6 ∷ 7 ∷ []) 2 wrapped
      ≡ done (frames, r'))
    × IsRing r'
    × Drained
        (contents wrapped ++ accepted (contents wrapped) (take 2 (5 ∷ 6 ∷ 7 ∷ [])))
        frames
        (contents r')
web_log_push_lem_example =
    web_log_push_lem all_sent (5 ∷ 6 ∷ 7 ∷ []) 2 wrapped wrapped-IsRing refl (omega arith)

interleaved_lem_example :
    (push_loop 2 (8 ∷ 9 ∷ []) wrapped
      ≡ done (
          interleaved
            (true ∷ true ∷ true ∷ false ∷ false ∷ false ∷ [])
            8
            9
            testing
            testing
            wrapped))
    × (push_loop 1 (9 ∷ []) wrapped
        ≡ done (
            interleaved
              (true ∷ false ∷ true ∷ false ∷ true ∷ false ∷ [])
              8
              9
              testing
              testing
              wrapped))
interleaved_lem_example = interleaved_lem 8 9 wrapped refl refl
