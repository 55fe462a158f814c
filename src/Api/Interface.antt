-- ===== src/Api/Interface.antt =====
-- What the client asks of its two collaborators: the connection (tcp_connection.py) and the
-- selection audit (selection_log.py).
use sts2_training.Base.{◌≡◌, ◌≢◌, ◌⊎◌, String, Bool, true, false, Option, none, some, List}
use sts2_training.Base.Outcome.{err}
use sts2_training.Json.{Fields, get, hashable}
use sts2_training.Api.Errors.{
  Exc, type_error, key_error, transport_error, epoch_changed, cancelled, Check,
}
use sts2_training.Api.Responses.{check_api_response}

-- How an exchange of one request ends.
pub data Outcome : Type 0 where
  replied : Fields → Outcome
  failed : Exc → Outcome

-- May the server have received the request? A failure says so by `completion_uncertain`.
abbrev uncertain : Exc → Bool
uncertain (transport_error u t) = u
uncertain (epoch_changed u t) = u
uncertain (cancelled u t) = u
uncertain _ = false

abbrev pub delivered : Outcome → Bool
delivered (replied r) = true
delivered (failed e) = uncertain e

pub record Environment (L A : Type 0) : Type 0 where
  -- TcpConnection.exchange and TcpConnection.invalidate
  pub exchange : L → Fields → Outcome × L
  pub invalidate : L → Check × L
  -- SelectionAudit
  pub clear : A → A
  pub forget : A → String → List String → A
  -- the flag: is the wire action id of a commit an ordinal?
  pub remember : A → Fields → Bool → A
  pub record_action : A → Fields → String → Option Fields → Option Exc → Check × A

-- The failure of an exchange names the request itself, or no request at all.
abbrev pub Names : Fields → Option Fields → Type 0
Names request token = (token ≡ none) ⊎ (token ≡ some request)

abbrev pub HasToken : Fields → Outcome → Type 0
HasToken request (failed (transport_error u token)) = Names request token
HasToken request (failed (cancelled u token)) = Names request token
HasToken request _ = Unit

-- Values that the client looks up in sets are texts, as the wire contract says: the checks of the
-- reply raise no TypeError and no KeyError.
abbrev pub IsReadable : Fields → Outcome → Type 0
IsReadable request (replied r) =
    (check_api_response request r ≢ err type_error)
    × (check_api_response request r ≢ err key_error)
    × (hashable (get "fault_kind" r) ≡ true)
IsReadable request _ = Unit

-- What the client relies on.
pub record Laws {L A : Type 0} (env : Environment L A) : Type 0 where
  pub has_token : (l : L) (request : Fields) → HasToken request (env.exchange l request).0
  pub readable : (l : L) (request : Fields) → IsReadable request (env.exchange l request).0
