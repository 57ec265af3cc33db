-- ===== src/Examples/Listeners.antt =====
-- What comes in on a connection.
use rusty_kaspa_stratum.Shared.{
  ℕ, ◌+◌, ◌-◌, ◌*◌, ◌≡◌, refl, Bool, true, false, Option, none, some, List, [], ◌∷◌, ◌++◌, Text,
  codes, arith, ok, err, ◌⊎◌, all, HashMap, starts_with,
}
use rusty_kaspa_stratum.Shared
use rusty_kaspa_stratum.Rpc.{JsonRpcEvent, unmarshal_event, sanitize_json_input}
use rusty_kaspa_stratum.Rpc
use rusty_kaspa_stratum.Stratum.LineCodec
use rusty_kaspa_stratum.Stratum.Utf8.{from_utf8_lossy, from_utf8_lossy_cut}
use rusty_kaspa_stratum.Stratum.Utf8
use rusty_kaspa_stratum.Stratum.Listener.{
  Read, bytes, timed_out, EventHandler, spawn_client_listener, start,
}
use rusty_kaspa_stratum.Stratum.Listener
use rusty_kaspa_stratum.Stratum.Listener.Bounds.{IsBounded, spawn_client_listener-IsBounded}
use rusty_kaspa_stratum.Stratum.Listener.Turns.{serve}
use rusty_kaspa_stratum.Stratum.Listener.Stream.{lines_of, spawn_client_listener-serve}
use rusty_kaspa_stratum.Examples.World.{world, session, event}

-- Every message is the submission; its handler counts nothing and closes nothing.
abbrev from_str : Text → Option (JsonRpcEvent ℕ)
from_str s = some event

abbrev handlers : HashMap Text (EventHandler world)
handlers = (codes "mining.submit", λ e s. (ok tt, record s { metrics = [] })) ∷ []

abbrev reads : List Read
reads = bytes (codes "{") ∷ timed_out ∷ bytes (codes "}\n[") ∷ []

spawn_client_listener-IsBounded_example :
    IsBounded (spawn_client_listener from_str handlers reads (start session))
spawn_client_listener-IsBounded_example =
    spawn_client_listener-IsBounded from_str handlers reads session

spawn_client_listener-serve_example :
    ((spawn_client_listener from_str handlers reads (start session)).session
      ≡ serve from_str handlers (lines_of [] reads).0 session)
    × ((spawn_client_listener from_str handlers reads (start session)).line_buffer
        ≡ (lines_of [] reads).1)
unfolding spawn_client_listener Listener.turn Listener.on_chunk Listener.receive Listener.stop
    Listener.handle_lines Listener.handle_line LineCodec.push_lossy_and_drain_lines LineCodec.drain
    LineCodec.split_line LineCodec.push_line LineCodec.strip_nul_bytes LineCodec.append_line_data
    LineCodec.byte_len LineCodec.char_len LineCodec.line_looks_like_http from_utf8_lossy Utf8.lossy
    lines_of Shared.trim Shared.trim_matches Shared.trim_start_matches Shared.trim_end_matches
    Shared.is_whitespace Shared.starts_with Shared.strip_prefix unmarshal_event sanitize_json_input
    Rpc.unwanted Shared.get
spawn_client_listener-serve_example =
    spawn_client_listener-serve from_str handlers reads session refl refl refl

abbrev is_address : Text → Bool
is_address s = starts_with s (codes "kaspa:q")

abbrev finds_none : Text → Option Text
finds_none s = none
