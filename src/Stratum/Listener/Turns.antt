-- ===== src/Stratum/Listener/Turns.antt =====
-- What one turn of the loop of a connection does with the bytes that it read.
use rusty_kaspa_stratum.Shared.{
  ℕ, ◌≡◌, refl, sym, ap, ◌∙◌, Bool, true, false, not, ◌&&◌, Option, none, List, [], ◌∷◌, ◌++◌, Text,
  arith, all, HashMap, Bool-cases, inl, inr, ltb, append_nil, subst,
}
use rusty_kaspa_stratum.External.{External}
use rusty_kaspa_stratum.Rpc.{JsonRpcEvent}
use rusty_kaspa_stratum.Stratum.LineCodec.{
  split_line, append_line_data, push_lossy_and_drain_lines, line_looks_like_http, strip_nul_bytes,
}
use rusty_kaspa_stratum.Stratum.LineCodec.Chunks.{push_lossy_and_drain_lines-scan, scan, scan-open}
use rusty_kaspa_stratum.Stratum.Utf8.{from_utf8_lossy, from_utf8_lossy_ascii}
use rusty_kaspa_stratum.Stratum.Listener.{
  Read, bytes, read_error, timed_out, no_read_half, EventHandler, Listener, stop, receive, on_chunk,
  on_read, turn, spawn_client_listener, connected, first_line, handle_line, handle_lines,
}
use rusty_kaspa_stratum.Submit.Session.{Session}

-- The bytes of a read.
abbrev pub bytes_of : Read → List ℕ
bytes_of (bytes b) = b
bytes_of _ = []

abbrev pub is_ascii : List ℕ → Bool
is_ascii = all (λ b. ltb b 0x80)

abbrev pub is_stratum : Text → Bool
is_stratum line = not (line_looks_like_http line)

pub strip_nul_bytes-append :
    (a b : List ℕ) → strip_nul_bytes (a ++ b) ≡ strip_nul_bytes a ++ strip_nul_bytes b
unfolding strip_nul_bytes
strip_nul_bytes-append [] b = refl
strip_nul_bytes-append (c ∷ a) b = ground (arith, strip_nul_bytes-append a b)

strip_nul_bytes_ascii : (a : List ℕ) → is_ascii a ≡ true → is_ascii (strip_nul_bytes a) ≡ true
unfolding strip_nul_bytes
strip_nul_bytes_ascii [] h = refl
strip_nul_bytes_ascii (c ∷ a) h = ground (arith, strip_nul_bytes_ascii a)

push_open :
    (buffer : Text) → split_line buffer ≡ none → push_lossy_and_drain_lines buffer [] ≡ ([], buffer)
push_open buffer h =
    push_lossy_and_drain_lines-scan buffer []
    ∙ ap (scan []) (append_nil buffer)
    ∙ scan-open [] buffer h

push_appended :
    (buffer chunk : Text)
    → push_lossy_and_drain_lines (buffer ++ chunk) [] ≡ push_lossy_and_drain_lines buffer chunk
push_appended buffer chunk =
    push_lossy_and_drain_lines-scan (buffer ++ chunk) []
    ∙ ap (scan []) (append_nil (buffer ++ chunk))
    ∙ sym (push_lossy_and_drain_lines-scan buffer chunk)

append_line_data_appended :
    (buffer chunk : Text)
    → (append_line_data buffer chunk).1 ≡ true
    → append_line_data buffer chunk ≡ (buffer ++ chunk, true)
unfolding append_line_data
append_line_data_appended buffer chunk h = ground (arith, h)

module _ {x : External} (from_str : Text → Option (JsonRpcEvent x.Number))
    (handler_map : HashMap Text (EventHandler x)) where
  -- Every line is handled, in its order.
  unfoldable pub serve : List Text → Session x → Session x
  serve [] s = s
  serve (line ∷ lines) s = serve lines (handle_line from_str handler_map line s)

  pub serve-append : (a b : List Text) (s : Session x) → serve (a ++ b) s ≡ serve b (serve a s)
  unfolding serve
  serve-append [] b s = refl
  serve-append (line ∷ a) b s = serve-append a b (handle_line from_str handler_map line s)

  handle_lines-serve :
      (lines : List Text) (s : Session x)
      → all is_stratum lines ≡ true
      → handle_lines from_str handler_map lines s ≡ serve lines s
  unfolding handle_lines serve
  handle_lines-serve [] s h = refl
  handle_lines-serve (line ∷ lines) s h = elim (Bool-cases (line_looks_like_http line)) [
    | inl e ↦ absurd (ground (arith, h, e))
    | inr e ↦
        rw e (
          handle_lines-serve lines (handle_line from_str handler_map line s) (ground (arith, h, e)))
  ]

  spawn_stopped :
      (reads : List Read) (l : Listener x)
      → l.running ≡ false
      → (spawn_client_listener from_str handler_map reads l).running ≡ false
  unfolding spawn_client_listener turn
  spawn_stopped [] l h = h
  spawn_stopped (r ∷ reads) l h = spawn_stopped reads (turn from_str handler_map r l) (simp h refl)

  pub spawn_running :
      (reads : List Read) (l : Listener x)
      → (spawn_client_listener from_str handler_map reads l).running ≡ true
      → l.running ≡ true
  spawn_running reads l h = elim (Bool-cases l.running) [
    | inl e ↦ e
    | inr e ↦ absurd (let gone = spawn_stopped reads l e in cc)
  ]

  -- What a turn owes to the bytes that it read.
  unfoldable pub Served : Text → Listener x → Listener x → Type 0
  Served chunk l l' =
      let (lines, rest) = push_lossy_and_drain_lines l.line_buffer chunk in
      (l'.session ≡ serve lines l.session) × (l'.line_buffer ≡ rest)

  receive_appended :
      (chunk : Text) (l : Listener x)
      → (append_line_data l.line_buffer chunk).1 ≡ true
      → receive from_str handler_map chunk l ≡ (
          let (lines, rest) = push_lossy_and_drain_lines l.line_buffer chunk in
          record {
            line_buffer = rest;
            first_message = false;
            session = handle_lines from_str handler_map lines l.session;
            running = true;
          })
  unfolding receive
  receive_appended chunk l h =
      simp (append_line_data_appended l.line_buffer chunk h, push_appended l.line_buffer chunk) refl

  receive_refused :
      (chunk : Text) (l : Listener x)
      → (append_line_data l.line_buffer chunk).1 ≡ false
      → (receive from_str handler_map chunk l).running ≡ false
  unfolding receive stop
  receive_refused chunk l h = simp h refl

  receive-Served :
      (chunk : Text) (l : Listener x)
      → (receive from_str handler_map chunk l).running ≡ true
      → all is_stratum (push_lossy_and_drain_lines l.line_buffer chunk).0 ≡ true
      → Served chunk l (receive from_str handler_map chunk l)
  unfolding Served
  receive-Served chunk l alive clean = elim (Bool-cases (append_line_data l.line_buffer chunk).1) [
    | inl h ↦
        let done = receive_appended chunk l h in
        (
          ap (λ r. r.session) done
              ∙ handle_lines-serve (push_lossy_and_drain_lines l.line_buffer chunk).0 l.session
                  clean,
          ap (λ r. r.line_buffer) done,
        )
    | inr h ↦ absurd (let gone = receive_refused chunk l h in cc)
  ]

  pub idle-Served : (l : Listener x) → split_line l.line_buffer ≡ none → Served [] l l
  unfolding Served serve
  idle-Served l h = rw (push_open l.line_buffer h) (refl, refl)

  on_chunk-Served :
      (chunk : Text) (l : Listener x)
      → (on_chunk from_str handler_map chunk l).running ≡ true
      → all is_stratum (push_lossy_and_drain_lines l.line_buffer chunk).0 ≡ true
      → Served chunk l (on_chunk from_str handler_map chunk l)
  unfolding on_chunk stop
  on_chunk-Served chunk l alive clean =
      elim (Bool-cases (l.first_message && line_looks_like_http (first_line chunk))) [
        | inl h ↦ absurd (ground (arith, h, alive))
        | inr h ↦
            let same : on_chunk from_str handler_map chunk l
                ≡ receive from_str handler_map chunk l =
              simp h refl in
            subst (Served chunk l) (sym same)
              (receive-Served chunk l (ap (λ r. r.running) (sym same) ∙ alive) clean)
      ]

  on_read-Served :
      (r : Read) (l : Listener x)
      → (on_read from_str handler_map r l).running ≡ true
      → split_line l.line_buffer ≡ none
      → is_ascii (bytes_of r) ≡ true
      → all is_stratum (push_lossy_and_drain_lines l.line_buffer (strip_nul_bytes (bytes_of r))).0
        ≡ true
      → Served (strip_nul_bytes (bytes_of r)) l (on_read from_str handler_map r l)
  unfolding stop strip_nul_bytes
  on_read-Served (bytes []) l alive open_line ascii clean = absurd (cc)
  on_read-Served (bytes (b ∷ more)) l alive open_line ascii clean =
      let chunk : from_utf8_lossy (strip_nul_bytes (b ∷ more)) ≡ strip_nul_bytes (b ∷ more) =
        from_utf8_lossy_ascii _ (strip_nul_bytes_ascii (b ∷ more) ascii) in
      subst (λ c. Served (strip_nul_bytes (b ∷ more)) l (on_chunk from_str handler_map c l))
        (sym chunk)
        (on_chunk-Served (strip_nul_bytes (b ∷ more)) l
          (ap (λ c. (on_chunk from_str handler_map c l).running) (sym chunk) ∙ alive) clean)
  on_read-Served read_error l alive open_line ascii clean = absurd (cc)
  on_read-Served timed_out l alive open_line ascii clean = idle-Served l open_line
  on_read-Served no_read_half l alive open_line ascii clean = absurd (cc)

  pub turn-Served :
      (r : Read) (l : Listener x)
      → (turn from_str handler_map r l).running ≡ true
      → split_line l.line_buffer ≡ none
      → is_ascii (bytes_of r) ≡ true
      → all is_stratum (push_lossy_and_drain_lines l.line_buffer (strip_nul_bytes (bytes_of r))).0
        ≡ true
      → Served (strip_nul_bytes (bytes_of r)) l (turn from_str handler_map r l)
  unfolding turn stop
  turn-Served r l alive open_line ascii clean =
      elim (Bool-cases (l.running && connected l.session)) [
        | inl h ↦
            let same : turn from_str handler_map r l ≡ on_read from_str handler_map r l =
              ground (arith, h) in
            subst (Served (strip_nul_bytes (bytes_of r)) l) (sym same)
              (on_read-Served r l (ap (λ m. m.running) (sym same) ∙ alive) open_line ascii clean)
        | inr h ↦ absurd (ground (arith, h, alive))
      ]
