-- ===== src/Stratum/Listener/Stream.antt =====
-- The loop of a connection against the stream of bytes that it reads.
use rusty_kaspa_stratum.Shared.{
  ℕ, ◌≡◌, refl, sym, ap, ◌∙◌, true, Option, none, List, [], ◌∷◌, ◌++◌, Text, arith, all, all-append,
  HashMap, ltb,
}
use rusty_kaspa_stratum.External.{External}
use rusty_kaspa_stratum.Rpc.{JsonRpcEvent}
use rusty_kaspa_stratum.Stratum.LineCodec.{split_line, push_lossy_and_drain_lines, strip_nul_bytes}
use rusty_kaspa_stratum.Stratum.LineCodec.Chunks.{
  push_lossy_and_drain_lines_left, push_lossy_and_drain_lines-append,
}
use rusty_kaspa_stratum.Stratum.Listener.{
  Read, EventHandler, Listener, turn, spawn_client_listener, start,
}
use rusty_kaspa_stratum.Stratum.Listener.Turns.{
  bytes_of, is_ascii, is_stratum, strip_nul_bytes-append, serve, serve-append, Served, idle-Served,
  turn-Served, spawn_running,
}
use rusty_kaspa_stratum.Submit.Session.{Session}

-- The bytes of the reads, one after the other.
abbrev pub stream : List Read → List ℕ
stream [] = []
stream (r ∷ reads) = bytes_of r ++ stream reads

-- The lines that the reads of a stream end, and what it leaves open.
unfoldable pub lines_of : Text → List Read → List Text × Text
lines_of buffer reads = push_lossy_and_drain_lines buffer (strip_nul_bytes (stream reads))

lines_of-cons :
    (buffer : Text) (r : Read) (reads : List Read)
    → lines_of buffer (r ∷ reads) ≡ (
        let (lines, left) = push_lossy_and_drain_lines buffer (strip_nul_bytes (bytes_of r)) in
        let (more, rest) = lines_of left reads in (lines ++ more, rest))
unfolding lines_of
lines_of-cons buffer r reads =
    ap (push_lossy_and_drain_lines buffer) (strip_nul_bytes-append (bytes_of r) (stream reads))
    ∙ push_lossy_and_drain_lines-append buffer (strip_nul_bytes (bytes_of r))
        (strip_nul_bytes (stream reads))

module _ {x : External} (from_str : Text → Option (JsonRpcEvent x.Number))
    (handler_map : HashMap Text (EventHandler x)) where
  -- The session and the buffer after the reads.
  Serves : List Read → Listener x → Listener x → Type 0
  Serves reads l l' =
      let (lines, rest) = lines_of l.line_buffer reads in
      (l'.session ≡ serve from_str handler_map lines l.session) × (l'.line_buffer ≡ rest)

  -- A turn, and the turns after it.
  Served-Serves :
      (r : Read) (reads : List Read) (l next last : Listener x)
      → Served from_str handler_map (strip_nul_bytes (bytes_of r)) l next
      → Serves reads next last
      → Serves (r ∷ reads) l last
  unfolding Served Serves
  Served-Serves r reads l next last first later =
      let (lines, left) = push_lossy_and_drain_lines l.line_buffer (strip_nul_bytes (bytes_of r)) in
      rw (lines_of-cons l.line_buffer r reads) (
        later.0
            ∙ ap (λ b. serve from_str handler_map (lines_of b reads).0 next.session) first.1
            ∙ ap (serve from_str handler_map (lines_of left reads).0) first.0
            ∙ sym (serve-append from_str handler_map lines (lines_of left reads).0 l.session),
        later.1 ∙ ap (λ b. (lines_of b reads).1) first.1,
      )

  from-Serves :
      (reads : List Read) (l : Listener x)
      → (spawn_client_listener from_str handler_map reads l).running ≡ true
      → split_line l.line_buffer ≡ none
      → is_ascii (stream reads) ≡ true
      → all is_stratum (lines_of l.line_buffer reads).0 ≡ true
      → Serves reads l (spawn_client_listener from_str handler_map reads l)
  unfolding spawn_client_listener strip_nul_bytes lines_of Serves Served
  from-Serves [] l alive open_line ascii clean = idle-Served from_str handler_map l open_line
  from-Serves (r ∷ reads) l alive open_line ascii clean =
      let chunk = strip_nul_bytes (bytes_of r) in
      let cut = push_lossy_and_drain_lines l.line_buffer chunk in
      let next = turn from_str handler_map r l in
      let both =
        sym (all-append is_stratum cut.0 (lines_of cut.1 reads).0)
        ∙ ap (λ p. all is_stratum p.0) (sym (lines_of-cons l.line_buffer r reads))
        ∙ clean in
      let ascii_both = sym (all-append (λ b. ltb b 0x80) (bytes_of r) (stream reads)) ∙ ascii in
      let first =
        turn-Served from_str handler_map r l (spawn_running from_str handler_map reads next alive)
          open_line (ground (arith, ascii_both)) (ground (arith, both)) in
      Served-Serves r reads l next (spawn_client_listener from_str handler_map reads next) first (
        from-Serves reads next alive
          (ap split_line first.1 ∙ push_lossy_and_drain_lines_left l.line_buffer chunk)
          (ground (arith, ascii_both))
          (ap (λ b. all is_stratum (lines_of b reads).0) first.1 ∙ ground (arith, both)))

  -- The loop serves the stream: while it goes on, the reads of a connection have done what handling
  -- each line of their bytes, one after the other, does, and the buffer holds the line that is still
  -- open. How the stream was cut into reads does not matter, nor reads that timed out; the bytes are
  -- ASCII, and no line of them looks like HTTP.
  pub spawn_client_listener-serve :
      (reads : List Read) (s : Session x)
      → (spawn_client_listener from_str handler_map reads (start s)).running ≡ true
      → is_ascii (stream reads) ≡ true
      → all is_stratum (lines_of [] reads).0 ≡ true
      → ((spawn_client_listener from_str handler_map reads (start s)).session
          ≡ serve from_str handler_map (lines_of [] reads).0 s)
        × ((spawn_client_listener from_str handler_map reads (start s)).line_buffer
            ≡ (lines_of [] reads).1)
  unfolding Serves split_line
  spawn_client_listener-serve reads s alive ascii clean =
      from-Serves reads (start s) alive refl ascii clean
