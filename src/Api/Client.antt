-- ===== src/Api/Client.antt =====
-- async_client.py and the state of contract.py: one logical stream of requests to the RL server.
-- The class inherits from ApiContract; one record holds the fields of both.
pub mod Execute
pub mod Accept
pub mod Operations
pub mod Retry
pub mod Session
use sts2_training.Base.{
  ℕ, String, Bool, Option, List, none, some, [], ◌∷◌, false, true, ◌==◌, str_eq,
}
use sts2_training.Base.Int.{pos}
use sts2_training.Json.{Fields, Value, int, str, get, same}

-- _pending_retry_cleanup
pub record Cleanup : Type 0 where
  pub source : Fields
  pub instance : String
  pub branch_ids : List String

pub record Client (L A : Type 0) : Type 0 where
  pub connection : L
  pub audit : A
  pub client_session_id : String
  pub instance_id : Option String
  pub instance_type : Option String
  pub pending_start_instance_type : Option String
  pub max_emulate_actions_items : Option ℕ
  pub next_request_seq : ℕ
  pub pending_retry : Option Fields
  pub session_invalid : Bool
  pub emulate_actions_boundaries : List String
  pub pending_retry_cleanup : Option Cleanup
  -- not a field of the class: the requests that the server may have received, the latest first
  pub wire : List Fields

-- __init__
unfoldable pub new_client : {L A : Type 0} → L → A → String → Client L A
new_client connection audit session = record {
  connection = connection;
  audit = audit;
  client_session_id = session;
  instance_id = none;
  instance_type = none;
  pending_start_instance_type = none;
  max_emulate_actions_items = none;
  next_request_seq = 1;
  pending_retry = none;
  session_invalid = false;
  emulate_actions_boundaries = [];
  pending_retry_cleanup = none;
  wire = [];
}

-- A sequence number is compared with one that is positive, so that of any other value is `none`.
abbrev number : Value → Option ℕ
number (int (pos n)) = some n
number _ = none

-- RetryRequest.request_seq, client_session_id and operation of a token
unfoldable pub seq_of : Fields → Option ℕ
seq_of token = number (get "request_seq" token)

abbrev any_text : Value → Option String
any_text (str s) = some s
any_text _ = none

unfoldable pub session_of : Fields → Option String
session_of token = any_text (get "client_session_id" token)

unfoldable pub operation_of : Fields → Option String
operation_of token = any_text (get "operation" token)

abbrev pub is_number : Option ℕ → ℕ → Bool
is_number none n = false
is_number (some k) n = k == n

abbrev pub is_text : Option String → String → Bool
is_text none s = false
is_text (some t) s = str_eq t s

abbrev pub is_token : Option Fields → Fields → Bool
is_token none token = false
is_token (some t) token = same t token

abbrev pub free_for : Option Fields → Fields → Bool
free_for none token = true
free_for (some t) token = same t token

abbrev pub is_set {ℓ} : {A : Type ℓ} → Option A → Bool
is_set none = false
is_set (some a) = true
