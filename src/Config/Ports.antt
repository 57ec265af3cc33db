-- ===== src/Config/Ports.antt =====
-- bridge/src/util/net_utils.rs: ports and addresses.
use rusty_kaspa_stratum.Shared.{
  ℕ, Bool, ◌&&◌, Option, none, some, [], ◌∷◌, ◌++◌, Text, codes, if◌then◌else◌, leb, is_empty, trim,
  starts_with, strip_prefix, text_eq, all, ◌==◌, trim_end_matches,
}

abbrev pub is_ascii_digit : ℕ → Bool
is_ascii_digit c = leb b'0' c && leb c b'9'

abbrev pub normalized : Text → Text
normalized s =
    if is_empty s
    then []
    else if starts_with s (codes ":")
    then s
    else if all is_ascii_digit s
    then b':' ∷ s
    else s

unfoldable pub normalize_port : Text → Text
normalize_port port_or_addr = normalized (trim port_or_addr)

abbrev pub with_host : Text → Text → Text
with_host host s = if is_empty s then s else if starts_with s (codes ":") then host ++ s else s

unfoldable pub bind_addr_from_port : Text → Text
unfolding normalize_port
bind_addr_from_port port_or_addr = with_host (codes "0.0.0.0") (normalize_port port_or_addr)

unfoldable pub bind_addr_for_operator_http : Text → Text
unfolding normalize_port
bind_addr_for_operator_http port_or_addr =
    with_host (codes "127.0.0.1") (normalize_port port_or_addr)

abbrev pub connect_addr : Text → Option Text → Text
connect_addr bind none = if text_eq bind (codes "0.0.0.0") then codes "127.0.0.1" else bind
connect_addr bind (some port_and_rest) = codes "127.0.0.1:" ++ port_and_rest

unfoldable pub http_connect_addr_for_operator_dashboard : Text → Text
http_connect_addr_for_operator_dashboard addr =
    let bind = trim addr in connect_addr bind (strip_prefix (codes "0.0.0.0:") bind)

abbrev pub origin_of : Text → Option Text
origin_of bind =
    if is_empty bind
    then none
    else some (
        codes "http://"
        ++ (trim_end_matches (λ c. c == b'/') (http_connect_addr_for_operator_dashboard bind)
            ++ codes "/"))

unfoldable pub http_operator_dashboard_origin : Text → Option Text
unfolding bind_addr_for_operator_http http_connect_addr_for_operator_dashboard
http_operator_dashboard_origin port_or_addr = origin_of (bind_addr_for_operator_http port_or_addr)
