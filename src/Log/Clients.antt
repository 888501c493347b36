-- ===== src/Log/Clients.antt =====
-- What a client of the log's web socket receives: the greeting of `log_ws_handler` in
-- main/web/web_server.c, and the lines that main/main.c redirects.
use esp32_deskflow.Prelude.{
  ℕ, ◌*◌, ◌/◌, ◌≤◌, ◌<◌, ◌≡◌, refl, ap, ◌∙◌, arith, subst, ℤ, eqb_ℤ, true, false, List, [], ◌∷◌,
  ◌++◌, length, take, take_all, take-take, take-append_all, length-take_shrinks, ltb, if◌then◌else◌,
}
use esp32_deskflow.Esp.{esp_ok, done}
use esp32_deskflow.Log.{
  LogRing, Sends, log_ws_hello, web_log_push, log_ws_handler, esp_log_ws_redirect, used,
  log_ring_buf_size,
}
use esp32_deskflow.Log.Ring.{IsRing, contents, length-contents}
use esp32_deskflow.Log.Queue.{
  accepted, Drained, web_log_push_lem, web_log_push_ran, drain_if_high_low, push_loop_lem,
  held_empty,
}

-- The ring that a new client takes over.
abbrev taken : ℤ → LogRing → LogRing
taken fd r = record r { fd = fd; connected = true; tail = r.head }

taken-IsRing : (fd : ℤ) (r : LogRing) → IsRing r → IsRing (taken fd r)
taken-IsRing fd r w = record { cells = w.cells; head_in = w.head_in; tail_in = w.head_in }

hello_pushed :
    (s : Sends) (fd : ℤ) (r : LogRing)
    → IsRing r
    → (r' : LogRing) × (web_log_push s log_ws_hello (length log_ws_hello) (taken fd r)
        ≡ done ([], r'))
      × IsRing r'
      × (contents r' ≡ log_ws_hello)
hello_pushed s fd r w =
    let (r', ran, w', same) =
      push_loop_lem (length log_ws_hello) log_ws_hello (taken fd r) (taken-IsRing fd r w)
        (omega arith) in
    let nothing : contents (taken fd r) ≡ [] = held_empty r.ring r.head r.head refl in
    let greeted : contents r' ≡ log_ws_hello =
      same ∙ ap (λ q. q ++ accepted q (take (length log_ws_hello) log_ws_hello)) nothing in
    let low : ltb (log_ring_buf_size * 3 / 5) (used r') ≡ false =
      ground (arith, length-contents r' w', ap length greeted) in
    (
      r',
      web_log_push_ran s log_ws_hello (length log_ws_hello) (taken fd r) r' refl ran
          ∙ ap done (drain_if_high_low s r' low),
      w',
      greeted,
    )

-- The first request of a new client: whatever the ring held is discarded, and exactly the greeting
-- waits for the client.
pub new_client_greeted :
    (s : Sends) (fd : ℤ) (r : LogRing)
    → IsRing r
    → eqb_ℤ fd r.fd ≡ false
    → (r' : LogRing) × (log_ws_handler s fd esp_ok r ≡ done (esp_ok, [], r'))
      × IsRing r'
      × (contents r' ≡ log_ws_hello)
unfolding log_ws_handler
new_client_greeted s fd r w new =
    let (r', ran, w', greeted) = hello_pushed s fd r w in (r', rw (new, ran) refl, w', greeted)

-- A line that is not empty, while a client listens.
pub redirect_connected :
    (s : Sends) (text stale : List ℕ) (r : LogRing)
    → r.connected ≡ true
    → 0 < length text
    → esp_log_ws_redirect s text stale r
      ≡ web_log_push s (take 256 (take 255 text ++ 0 ∷ stale)) (length text) r
unfolding esp_log_ws_redirect
redirect_connected s text stale r on some_text =
    let pushed = web_log_push s (take 256 (take 255 text ++ 0 ∷ stale)) (length text) r in
    let longer : ltb 0 (length text) ≡ true = ground arith in
    ap (λ c. if c then (if ltb 0 (length text) then pushed else done ([], r)) else done ([], r)) on
    ∙ ap (λ c. if c then pushed else done ([], r)) longer

-- A line of 1 to 255 bytes is queued as it is, as far as it fits.
pub redirect_short :
    (s : Sends) (text stale : List ℕ) (r : LogRing)
    → IsRing r
    → r.connected ≡ true
    → 0 < length text
    → length text ≤ 255
    → (frames : List (List ℕ)) × (r' : LogRing) × (esp_log_ws_redirect s text stale r
        ≡ done (frames, r'))
      × IsRing r'
      × Drained (contents r ++ accepted (contents r) text) frames (contents r')
redirect_short s text stale r w on some_text short =
    let buf = take 256 (take 255 text ++ 0 ∷ stale) in
    let whole : take 255 text ≡ text = take_all 255 text short in
    let first : take (length text) buf ≡ text =
      take-take (length text) 256 (take 255 text ++ 0 ∷ stale) (omega arith)
      ∙ ap (λ t. take (length text) (t ++ 0 ∷ stale)) whole
      ∙ take-append_all text (0 ∷ stale) in
    let fits : length text ≤ length buf =
      omega (arith, length-take_shrinks (length text) buf, ap length first) in
    let (frames, r', ran, w', drained) = web_log_push_lem s buf (length text) r w on fits in
    (
      frames,
      r',
      redirect_connected s text stale r on some_text ∙ ran,
      w',
      subst (λ t. Drained (contents r ++ accepted (contents r) t) frames (contents r')) first
          drained,
    )
