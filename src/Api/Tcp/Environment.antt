-- ===== src/Api/Tcp/Environment.antt =====
-- The client over TCP: its two collaborators are a TcpConnection and a SelectionAudit.
use sts2_training.Base.{ℕ, ◌≡◌, ◌⊎◌, String, Option, List, [], ◌∷◌}
use sts2_training.Base.Outcome.{Result, ok, err}
use sts2_training.Json.{Fields}
use sts2_training.Api.Errors.{Check}
use sts2_training.Api.Interface.{Environment, Outcome, replied, failed, IsReadable, Laws}
use sts2_training.Api.Client.{Client}
use sts2_training.Api.Wire.{IsOrderly}
use sts2_training.Api.Responses.Readable.{IsTextual, Fits, textual-IsReadable}
use sts2_training.Api.Tcp.{Network, Conn, Trouble}
use sts2_training.Api.Tcp.Connect.{invalidate, json_of}
use sts2_training.Api.Tcp.Exchange.{exchange, unsent}
use sts2_training.Api.Tcp.Settled.{IsReply, IsRefusal, Reads, heard, Told}
use sts2_training.Api.Tcp.Sound.{exchange-Settled}
use sts2_training.Audit.{Audit, clear, forget, remember}
use sts2_training.Audit.Record.{Python, record_action}

unfoldable pub check_of : Result Trouble (Unit {0}) → Check
unfolding unsent
check_of (ok u) = ok tt
check_of (err t) = err (unsent t)

unfoldable pub invalidated : {N : Type 0} → Network N → Conn N → Check × Conn N
unfolding invalidate check_of
invalidated net c = let (r, d) = invalidate net c in (check_of r, d)

-- The hint of `remember` is ignored there.
unfoldable pub over_tcp : {N : Type 0} → Network N → Python → Environment (Conn N) Audit
unfolding exchange invalidated clear forget remember record_action
over_tcp net python = record {
  exchange = exchange net;
  invalidate = invalidated net;
  clear = clear;
  forget = λ a instance branches. forget instance branches a;
  remember = λ a response hint. remember response a;
  record_action =
      λ a request source result error. record_action python request source result error a;
}

-- The server keeps the wire contract: an object that is read in an exchange of a request, once the
-- request is written, has statuses and a fault kind that can be looked up, and where it is a completed
-- answer to the operation of the request, the request has its ids.
abbrev pub KeepsContract : {N : Type 0} → Network N → Type 0
KeepsContract {N} net =
    (c : Conn N) (request response : Fields)
    → Reads net (heard net request c) response
    → IsTextual response × Fits request response

-- The answer read in an exchange of the request is a transport error, or json.loads raises another
-- exception on it than its decode errors.
abbrev pub IsAside : {N : Type 0} → Network N → Fields → Conn N → Type 0
IsAside net request c =
    IsRefusal net (heard net request c)
    ⊎ ((line : List ℕ) × (t : Trouble) × (heard net request c ≡ ok line)
        × (json_of (net.decode line) ≡ err t))

-- The requests that were given to the writer, and those on the wire, in the same order: the ones left
-- out were set aside by their answer.
pub data Accounted {N : Type 0} (net : Network N) : List Fields → List Fields → Type 0 where
  nothing : Accounted net [] []
  on_wire :
      (q : Fields) (written wire : List Fields)
      → Accounted net written wire
      → Accounted net (q ∷ written) (q ∷ wire)
  set_aside :
      (q : Fields) (c : Conn N) (written wire : List Fields)
      → IsAside net q c
      → Accounted net written wire
      → Accounted net (q ∷ written) wire

-- The wire of the client is in order, and accounts for what its connection has written.
abbrev pub IsDelivered : {N : Type 0} → Network N → Client (Conn N) Audit → Type 0
IsDelivered net c = IsOrderly c.wire × Accounted net c.connection.written c.wire

module _ {N : Type 0} (net : Network N) where
  abbrev Accounts : Conn N → List Fields → Type 0
  Accounts c wire = Accounted net c.written wire

module _ {N : Type 0} (net : Network N) (python : Python) (h : KeepsContract net) where
  readable_reply :
      (c : Conn N) (epoch : Option String) (request : Fields) (o : Outcome)
      → IsReply net (heard net request c) epoch o
      → IsReadable request o
  readable_reply c epoch request (failed e) r = tt
  readable_reply c epoch request (replied response) r =
      let k = h c request response r.0 in textual-IsReadable request response k.0 k.1

  -- A TcpConnection and a SelectionAudit satisfy what the client relies on, when an object
  -- that is read as the answer to a written request has statuses and a fault kind that can be looked
  -- up, and answers as completed only a request that has its ids; and, whatever is read, the connection
  -- tells after each exchange whether it has written the request, unless the answer read is a transport
  -- error or makes json.loads raise another exception than its decode errors.
  pub over_tcp-Laws :
      Laws (over_tcp net python)
      × ((c : Conn N) (q : Fields)
          → Told net q c.written
              (heard net q c)
              ((over_tcp net python).exchange c q).0
              ((over_tcp net python).exchange c q).1)
  unfolding over_tcp
  over_tcp-Laws = (
    record {
      has_token = λ c request. (exchange-Settled net request c).token;
      readable = λ c request.
          readable_reply c (exchange net c request).1.epoch request (exchange net c request).0
            (exchange-Settled net request c).answer;
    },
    λ c q. (exchange-Settled net q c).told,
  )
