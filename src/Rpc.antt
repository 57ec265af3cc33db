-- ===== src/Rpc.antt =====
-- bridge/src/jsonrpc/jsonrpc_event.rs: the messages of the protocol. `N` stands for serde_json's
-- `Number`; `from_str` and `code` are that crate's parser and its conversion of an `i32`.
pub mod Methods
pub mod Sanitize
use rusty_kaspa_stratum.Shared.{
  ℕ, ◌≤◌, Bool, true, false, not, ◌&&◌, ◌||◌, Option, none, some, List, [], ◌∷◌, map, leb, ltb,
  ◌==◌, Text, text_eq, codes, if◌then◌else◌, unwrap_or,
}

-- serde_json's `Value`: the program matches on its variants.
mutual
  pub data Value (N : Type 0) : Type 0 where
    null : Value N
    bool : Bool → Value N
    number : N → Value N
    string : Text → Value N
    array : Values N → Value N
    object : Fields N → Value N

  pub data Values (N : Type 0) : Type 0 where
    end : Values N
    item : Value N → Values N → Values N

  pub data Fields (N : Type 0) : Type 0 where
    done : Fields N
    field : Text → Value N → Fields N → Fields N

pub data StratumMethod : Type 0 where
  subscribe extranonce_subscribe authorize submit : StratumMethod
  set_difficulty notify set_extranonce : StratumMethod
  other : Text → StratumMethod

unfoldable pub from_text : Text → StratumMethod
from_text s =
    if text_eq s (codes "mining.subscribe")
    then subscribe
    else if text_eq s (codes "mining.extranonce.subscribe")
    then extranonce_subscribe
    else if text_eq s (codes "mining.authorize")
    then authorize
    else if text_eq s (codes "mining.submit")
    then submit
    else if text_eq s (codes "mining.set_difficulty")
    then set_difficulty
    else if text_eq s (codes "mining.notify")
    then notify
    else if text_eq s (codes "mining.set_extranonce")
    then set_extranonce
    else other s

unfoldable pub to_text : StratumMethod → Text
to_text subscribe = codes "mining.subscribe"
to_text extranonce_subscribe = codes "mining.extranonce.subscribe"
to_text authorize = codes "mining.authorize"
to_text submit = codes "mining.submit"
to_text set_difficulty = codes "mining.set_difficulty"
to_text notify = codes "mining.notify"
to_text set_extranonce = codes "mining.set_extranonce"
to_text (other s) = s

pub record JsonRpcEvent (N : Type 0) : Type 0 where
  pub id : Option (Value N)
  pub jsonrpc : Text
  pub method : Text
  pub params : List (Value N)

pub record JsonRpcResponse (N : Type 0) : Type 0 where
  pub id : Option (Value N)
  pub result : Option (Value N)
  pub error : Option (List (Value N))

module _ {N : Type 0} where
  unfoldable pub new_event : Option Text → Text → List (Value N) → JsonRpcEvent N
  new_event id method params = record {
    id = elim id [ none ↦ none | some s ↦ some (string s) ];
    jsonrpc = codes "2.0";
    method = method;
    params = params;
  }

  unfoldable pub method_enum : JsonRpcEvent N → StratumMethod
  unfolding from_text
  method_enum e = from_text e.method

  unfoldable pub new_response :
      JsonRpcEvent N → Option (Value N) → Option (List (Value N)) → JsonRpcResponse N
  new_response event result error = record { id = event.id; result = result; error = error }

  unfoldable pub error_response :
      (ℕ → N) → Option (Value N) → ℕ → Text → Option (Value N) → JsonRpcResponse N
  error_response from_i32 id code message extra = record {
    id = id;
    result = none;
    error = some (number (from_i32 code) ∷ string message ∷ unwrap_or extra null ∷ []);
  }

-- `char::is_control`
abbrev pub is_control : ℕ → Bool
is_control c = ltb c 32 || leb 127 c && leb c 159

unfoldable pub unwanted : ℕ → Bool
unwanted c = is_control c && (not (c == b'\n') && not (c == b'\r'))

unfoldable pub sanitize_json_input : Text → Text
unfolding unwanted
sanitize_json_input input = map (λ c. if unwanted c then b' ' else c) input

abbrev pub any : (ℕ → Bool) → Text → Bool
any p [] = false
any p (c ∷ s) = p c || any p s

unfoldable pub unmarshal_event {ℓ} : {A : Type ℓ} → (Text → A) → Text → A
unfolding sanitize_json_input
unmarshal_event from_str input =
    if any unwanted input then from_str (sanitize_json_input input) else from_str input
