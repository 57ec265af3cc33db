-- ===== src/Stratum/Listener.antt =====
-- bridge/src/stratum/stratum_listener/client_io/read_loop.rs: the loop that reads a connection. What
-- the reads return is a parameter, one by one; `from_str` is serde_json's parser and `handler_map`
-- the table of handlers. Logs are left out, and a handler's error is only logged.
pub mod Bounds
pub mod Turns
pub mod Stream
pub mod Accept
use rusty_kaspa_stratum.Shared.{
  ℕ, Bool, true, false, not, Option, none, some, List, [], ◌∷◌, Text, if◌then◌else◌, HashMap, get,
  text_key, trim, unwrap_or, ◌&&◌,
}
use rusty_kaspa_stratum.External.{External}
use rusty_kaspa_stratum.Rpc.{JsonRpcEvent, unmarshal_event}
use rusty_kaspa_stratum.Stratum.Context.{StratumContext, disconnect}
use rusty_kaspa_stratum.Stratum.LineCodec.{
  split_line, strip_nul_bytes, append_line_data, push_lossy_and_drain_lines, line_looks_like_http,
}
use rusty_kaspa_stratum.Stratum.Utf8.{from_utf8_lossy}
use rusty_kaspa_stratum.Submit.Session.{Session, Run}

abbrev pub EventHandler : External → Type 0
EventHandler x = JsonRpcEvent x.Number → Run x Text (Unit {0})

-- What one turn of the loop gets: the bytes of a read (none at the end of the stream), an error of
-- the socket, five seconds without data, or no half to read from.
pub data Read : Type 0 where
  bytes : List ℕ → Read
  read_error timed_out no_read_half : Read

pub record Listener (x : External) : Type 0 where
  pub line_buffer : Text
  pub first_message : Bool
  pub session : Session x
  pub running : Bool

-- message_str.lines().next().unwrap_or("").trim()
abbrev pub first_line : Text → Text
first_line message = elim (split_line message) [
  | none ↦ trim message
  | some (line, rest) ↦ trim line
]

module _ {x : External} where
  abbrev pub connected : Session x → Bool
  connected s = not s.ctx.disconnecting

  unfoldable pub disconnect_client : Session x → Session x
  disconnect_client s = record s { ctx = disconnect s.ctx }

  -- `ctx.disconnect()` after the loop
  unfoldable pub stop : Listener x → Listener x
  stop l = record l { session = disconnect_client l.session; running = false }

  -- What the client is when the loop starts.
  abbrev pub start : Session x → Listener x
  start s = record { line_buffer = []; first_message = true; session = s; running = true }

  module _ (from_str : Text → Option (JsonRpcEvent x.Number))
      (handler_map : HashMap Text (EventHandler x)) where
    abbrev pub run_handler : Option (EventHandler x) → JsonRpcEvent x.Number → Session x → Session x
    run_handler none event s = s
    run_handler (some handler) event s = (handler event s).1

    abbrev pub dispatch : Option (JsonRpcEvent x.Number) → Session x → Session x
    dispatch none s = s
    dispatch (some event) s = run_handler (get event.method handler_map) event s

    unfoldable pub handle_line : Text → Session x → Session x
    handle_line line s = dispatch (unmarshal_event from_str line) s

    -- The lines of one read; one that looks like HTTP ends them.
    unfoldable pub handle_lines : List Text → Session x → Session x
    handle_lines [] s = s
    handle_lines (line ∷ drained) s =
        let later = handle_lines drained (handle_line line s) in
        if line_looks_like_http line then disconnect_client s else later

    -- What is done with the text of a read: the lines that it ends are handled.
    unfoldable pub receive : Text → Listener x → Listener x
    receive chunk l =
        let (line_buffer, appended) = append_line_data l.line_buffer chunk in
        let (drained, rest) = push_lossy_and_drain_lines line_buffer [] in
        if appended
        then record {
          line_buffer = rest;
          first_message = false;
          session = handle_lines drained l.session;
          running = true;
        }
        else stop (record l { first_message = false })

    -- What follows a read of `n > 0` bytes, of which `chunk` is the text without NUL bytes.
    unfoldable pub on_chunk : Text → Listener x → Listener x
    on_chunk chunk l =
        if l.first_message && line_looks_like_http (first_line chunk)
        then stop l
        else receive chunk l

    abbrev pub on_read : Read → Listener x → Listener x
    on_read (bytes []) l = stop l
    on_read (bytes (b ∷ data_bytes)) l =
        on_chunk (from_utf8_lossy (strip_nul_bytes (b ∷ data_bytes))) l
    on_read read_error l = stop l
    on_read timed_out l = l
    on_read no_read_half l = stop l

    -- One turn of the loop.
    unfoldable pub turn : Read → Listener x → Listener x
    turn r l = if l.running then (if connected l.session then on_read r l else stop l) else l

    unfoldable pub spawn_client_listener : List Read → Listener x → Listener x
    spawn_client_listener [] l = l
    spawn_client_listener (r ∷ reads) l = spawn_client_listener reads (turn r l)
