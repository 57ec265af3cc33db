-- ===== src/Stratum/Listener/Bounds.antt =====
-- What is kept of the reads of a connection.
use rusty_kaspa_stratum.Shared.{
  ◌+◌, ◌≤◌, ◌≡◌, refl, true, false, Option, List, [], ◌∷◌, ◌++◌, Text, arith, HashMap, Bool-cases,
  ◌&&◌, inl, inr,
}
use rusty_kaspa_stratum.External.{External}
use rusty_kaspa_stratum.Rpc.{JsonRpcEvent}
use rusty_kaspa_stratum.Stratum.Context.{disconnect}
use rusty_kaspa_stratum.Stratum.LineCodec.{
  byte_len, append_line_data, push_lossy_and_drain_lines, max_stratum_line_bytes,
  line_looks_like_http,
}
use rusty_kaspa_stratum.Stratum.LineCodec.Chunks.{push_lossy_and_drain_lines-scan, scan}
use rusty_kaspa_stratum.Stratum.Utf8.{from_utf8_lossy}
use rusty_kaspa_stratum.Stratum.LineCodec.{strip_nul_bytes}
use rusty_kaspa_stratum.Stratum.Listener.{
  Read, bytes, read_error, timed_out, no_read_half, EventHandler, Listener, stop, on_chunk, receive,
  start, turn, spawn_client_listener, on_read, connected, first_line, disconnect_client,
}
use rusty_kaspa_stratum.Submit.Session.{Session}

byte_len-append : (s t : Text) → byte_len (s ++ t) ≡ byte_len s + byte_len t
unfolding byte_len
byte_len-append [] t = omega arith
byte_len-append (c ∷ s) t = omega (arith, byte_len-append s t)

-- The reader keeps no more bytes than it was given.
byte_len-scan : (line s : Text) → byte_len (scan line s).1 ≤ byte_len line + byte_len s
unfolding scan byte_len
byte_len-scan line [] = omega arith
byte_len-scan line (c ∷ s) =
    ground
      (arith, byte_len-scan [] s, byte_len-scan (line ++ c ∷ []) s, byte_len-append line (c ∷ []))

byte_len-push_lossy_and_drain_lines :
    (buffer chunk : Text)
    → byte_len (push_lossy_and_drain_lines buffer chunk).1 ≤ byte_len buffer + byte_len chunk
unfolding byte_len
byte_len-push_lossy_and_drain_lines buffer chunk =
    rw (push_lossy_and_drain_lines-scan buffer chunk)
      (omega (arith, byte_len-scan [] (buffer ++ chunk), byte_len-append buffer chunk))

pub append_line_data_bounded :
    (buffer chunk : Text)
    → (append_line_data buffer chunk).1 ≡ true
    → byte_len (append_line_data buffer chunk).0 ≤ max_stratum_line_bytes
unfolding append_line_data
append_line_data_bounded buffer chunk h = ground (arith, h, byte_len-append buffer chunk)

-- The buffer is within the limit, and a client whose loop has ended is disconnected.
pub IsBounded : {x : External} → Listener x → Type 0
IsBounded l =
    (byte_len l.line_buffer ≤ max_stratum_line_bytes)
    × (l.running ≡ false → l.session.ctx.disconnecting ≡ true)

module _ {x : External} (from_str : Text → Option (JsonRpcEvent x.Number))
    (handler_map : HashMap Text (EventHandler x)) where
  stop-IsBounded : (l : Listener x) → IsBounded l → IsBounded (stop l)
  unfolding stop disconnect_client disconnect IsBounded
  stop-IsBounded l valid = (valid.0, λ h. refl)

  receive-IsBounded :
      (chunk : Text) (l : Listener x)
      → IsBounded l
      → IsBounded (receive from_str handler_map chunk l)
  unfolding receive byte_len IsBounded
  receive-IsBounded chunk l valid = elim (Bool-cases (append_line_data l.line_buffer chunk).1) [
    | inl h ↦ rw h (
      omega (
        arith,
        append_line_data_bounded l.line_buffer chunk h,
        byte_len-push_lossy_and_drain_lines (append_line_data l.line_buffer chunk).0 [],
      ),
      λ r. absurd (cc),
    )
    | inr h ↦ rw h (stop-IsBounded (record l { first_message = false }) valid)
  ]

  on_chunk-IsBounded :
      (chunk : Text) (l : Listener x)
      → IsBounded l
      → IsBounded (on_chunk from_str handler_map chunk l)
  unfolding on_chunk
  on_chunk-IsBounded chunk l valid =
      elim (Bool-cases (l.first_message && line_looks_like_http (first_line chunk))) [
        | inl h ↦ rw h (stop-IsBounded l valid)
        | inr h ↦ rw h (receive-IsBounded chunk l valid)
      ]

  on_read-IsBounded :
      (r : Read) (l : Listener x) → IsBounded l → IsBounded (on_read from_str handler_map r l)
  on_read-IsBounded (bytes []) l valid = stop-IsBounded l valid
  on_read-IsBounded (bytes (b ∷ data_bytes)) l valid =
      on_chunk-IsBounded (from_utf8_lossy (strip_nul_bytes (b ∷ data_bytes))) l valid
  on_read-IsBounded read_error l valid = stop-IsBounded l valid
  on_read-IsBounded timed_out l valid = valid
  on_read-IsBounded no_read_half l valid = stop-IsBounded l valid

  turn-IsBounded :
      (r : Read) (l : Listener x) → IsBounded l → IsBounded (turn from_str handler_map r l)
  unfolding turn
  turn-IsBounded r l valid = elim (Bool-cases l.running) [
    | inl h ↦ elim (Bool-cases (connected l.session)) [
      | inl c ↦ simp (h, c) (on_read-IsBounded r l valid)
      | inr c ↦ simp (h, c) (stop-IsBounded l valid)
    ]
    | inr h ↦ simp h valid
  ]

  from-IsBounded :
      (reads : List Read) (l : Listener x)
      → IsBounded l
      → IsBounded (spawn_client_listener from_str handler_map reads l)
  unfolding spawn_client_listener
  from-IsBounded [] l valid = valid
  from-IsBounded (r ∷ reads) l valid =
      from-IsBounded reads (turn from_str handler_map r l) (turn-IsBounded r l valid)

  -- Whatever the socket returns, in whatever pieces, and whatever the handlers do: the loop never keeps
  -- more than `max_stratum_line_bytes` of an open line, and once it has ended the client is
  -- disconnected.
  pub spawn_client_listener-IsBounded :
      (reads : List Read) (s : Session x)
      → IsBounded (spawn_client_listener from_str handler_map reads (start s))
  unfolding byte_len IsBounded
  spawn_client_listener-IsBounded reads s =
      from-IsBounded reads (start s) (omega arith, λ h. absurd (cc))
