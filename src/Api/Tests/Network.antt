-- ===== src/Api/Tests/Network.antt =====
-- A network whose server answers the hello and then every request with one Decision, in two chunks.
use sts2_training.Base.{
  ◌⊎◌, Bool-cases, ◌∙◌, subst, length, ◌≤◌, ap, sym, str_eq_iff, ◌≡◌, inl, inr, refl, ℕ, zero, suc,
  ◌==◌, true, false, none, some, List, [], ◌∷◌, take, if◌then◌else◌, arith,
}
use sts2_training.Base.Outcome.{ok}
use sts2_training.Json.{
  Fields, end, field, Value, str, obj, get, int, lookup, py_eq, null, bool, float, arr,
}
use sts2_training.Base.Int.{pos}
use sts2_training.Api.Errors.{schema_version}
use sts2_training.Api.Interface.{replied}
use sts2_training.Api.Responses.Readable.{IsTextual, IsAsked, Fits}
use sts2_training.Api.Tcp.{Await, done, Loaded, loaded, malformed, too_deep, Network, Conn}
use sts2_training.Api.Tcp.Connect.{json_of, new_conn}
use sts2_training.Api.Tcp.Exchange.{exchange}
use sts2_training.Api.Tests.Fixtures.{decision}
use sts2_training.Api.Tcp.Environment.{KeepsContract, over_tcp, over_tcp-Laws}
use sts2_training.Api.Tcp.Io.{pure}
use sts2_training.Api.Tcp.Frame.{read_frame, read_response_frame}
use sts2_training.Api.Tcp.Frame.Sound.{
  IsBounded, IsFrame, IsAnswered, read_response_frame-IsAnswered, read_response_frame-IsFrame,
}
use sts2_training.Api.Tcp.Settled.{Settled, IsKept, Told, heard}
use sts2_training.Api.Tcp.Calm.{Plain}
use sts2_training.Api.Tcp.Ping.{ping}
use sts2_training.Api.Tcp.Ping.Sound.{IsPong, ping-IsPong}
use sts2_training.Api.Interface.{Laws}
use sts2_training.Api.Client.Operations.{granted}
use sts2_training.Api.Client.Session.{Command, start, decide, close}
use sts2_training.Audit.{Audit}
use sts2_training.Audit.Record.{Python}

abbrev request : Fields
request = field "client_session_id" (str "s-1") (
    field "request_seq" (int (pos 1)) (
      field "request_id" (str "r-1")
        (field "operation" (str "get_decision") (field "schema_version" (str schema_version) end))))

abbrev hello_answer : Fields
hello_answer = field "transport_operation" (str "hello") (
    field "schema_version" (str schema_version)
      (field "client_session_id" (str "s-1") (field "server_epoch" (str "e-1") end)))

abbrev reply : Fields
reply = field "schema_version" (str schema_version) (
    field "client_session_id" (str "s-1") (
      field "request_seq" (int (pos 1)) (
        field "request_id" (str "r-1") (
          field "operation" (str "get_decision") (
            field "server_epoch" (str "e-1") (
              field "status" (str "completed")
                (field "instance_id" (str "i-1") (field "branch_id" (str "root") decision))))))))

abbrev refusal : Fields
refusal = field "operation" (str "release_branches") (
    field "status" (str "rejected") (
      field "fault_kind" (str "invalid_request")
        (field "error" (str "unknown Branch") (field "server_epoch" (str "e-1") end))))

abbrev decode : List ℕ → Loaded
decode [] = malformed
decode (b ∷ rest) =
    if b == 1
    then loaded (obj hello_answer)
    else if b == 2
    then loaded (obj reply)
    else if b == 3
    then loaded (obj refusal)
    else if b == 4
    then too_deep
    else malformed

-- the chunks still to be read
abbrev read : List (List ℕ) → ℕ → Await (List ℕ) × List (List ℕ)
read [] k = (done [], [])
read (bs ∷ rest) k = (done (take k bs), rest)

abbrev pub net : Network (List (List ℕ))
net = record {
  lock = λ n. (done tt, n);
  dial = λ n. (done tt, n);
  close = λ n. (done tt, n);
  send = λ n bs. (done tt, n);
  read = read;
  healthy = λ n. true;
  encode = λ fields. 7 ∷ [];
  decode = decode;
}

is_operation : (v : Value) → py_eq (str "get_decision") v ≡ true → v ≡ str "get_decision"
unfolding py_eq
is_operation (str s) h = ap str (sym ((str_eq_iff "get_decision" s).0 h))
is_operation null h = cc
is_operation (int n) h = cc
is_operation (bool true) h = cc
is_operation (bool false) h = cc
is_operation (float x) h = cc
is_operation (obj d) h = cc
is_operation (arr xs) h = cc

hello-IsTextual : IsTextual hello_answer
unfolding get lookup
hello-IsTextual = record { status = refl; fault_kind = refl; results = tt }

reply-IsTextual : IsTextual reply
unfolding get lookup
reply-IsTextual = record { status = refl; fault_kind = refl; results = tt }

refusal-IsTextual : IsTextual refusal
unfolding get lookup
refusal-IsTextual = record { status = refl; fault_kind = refl; results = tt }

hello-Fits : (q : Fields) → Fits q hello_answer
unfolding get lookup
hello-Fits q = inr (inl refl)

refusal-Fits : (q : Fields) → Fits q refusal
unfolding get lookup
refusal-Fits q = inr (inl refl)

true-false : true ≡ false → ⊥
true-false e = cc

asked : (q : Fields) → get "operation" q ≡ str "get_decision" → IsAsked q
asked q e = record {
  branch_ids = λ o. elim (true-false (sym o ∙ rw e refl)) [ ];
  items = λ o. elim (true-false (sym o ∙ rw e refl)) [ ];
}

reply-Fits : (q : Fields) → Fits q reply
unfolding get lookup
reply-Fits q = elim (Bool-cases (py_eq (str "get_decision") (get "operation" q))) [
  | inl e ↦ inl (asked q (is_operation (get "operation" q) e))
  | inr e ↦ inr (inr e)
]

-- the answers that the network decodes
decoded_cases :
    (line : List ℕ) (r : Fields)
    → json_of (decode line) ≡ ok (some r)
    → (r ≡ hello_answer) ⊎ (r ≡ reply) ⊎ (r ≡ refusal)
decoded_cases line r h = ground arith

net-KeepsContract : KeepsContract net
net-KeepsContract c q r h = elim (decoded_cases h.0 r h.2) [
  | inl e ↦ subst (λ d. IsTextual d × Fits q d) (sym e) (hello-IsTextual, hello-Fits q)
  | inr (inl e) ↦ subst (λ d. IsTextual d × Fits q d) (sym e) (reply-IsTextual, reply-Fits q)
  | inr (inr e) ↦ subst (λ d. IsTextual d × Fits q d) (sym e) (refusal-IsTextual, refusal-Fits q)
]

length-take : (k : ℕ) (bs : List ℕ) → length (take k bs) ≤ k
length-take zero bs = omega arith
length-take (suc k) [] = omega arith
length-take (suc k) (b ∷ bs) = let ih = length-take k bs in omega arith

net-IsBounded : IsBounded net
net-IsBounded [] k bs e = ground arith
net-IsBounded (chunk ∷ rest) k bs e = ground (arith, length-take k chunk)

-- a connection that has not been opened, and the chunks of the two answers that it will get
abbrev chunks : List (List ℕ)
chunks = (1 ∷ []) ∷ (10 ∷ []) ∷ (2 ∷ 5 ∷ []) ∷ (10 ∷ []) ∷ []

abbrev idle : Conn (List (List ℕ))
unfolding new_conn
idle = new_conn chunks "s-1" 1000 1000

exchange_replies : (exchange net idle request).0 ≡ replied reply
unfolding exchange idle get lookup py_eq read_frame pure
exchange_replies = refl

abbrev no_audit : Audit
no_audit = record {
  logging = true;
  decisions = [];
  selection_request_id = none;
  selection_branch_ids = [];
  events = [];
}

abbrev python : Python
python = record { lower = λ s. s; show = λ v. ""; describe = λ e. end }

abbrev session : List Command
session = start granted end ∷ decide granted "i-1" "root" ∷ close granted "i-1" ∷ []

over_tcp-Laws_example :
    Laws (over_tcp net python)
    × ((c : Conn (List (List ℕ))) (q : Fields)
        → Told net q c.written
            (heard net q c)
            ((over_tcp net python).exchange c q).0
            ((over_tcp net python).exchange c q).1)
over_tcp-Laws_example = over_tcp-Laws net python net-KeepsContract

-- an open connection, whose server sends a line in two chunks
abbrev reading : Conn (List (List ℕ))
reading = record idle { net = (2 ∷ 5 ∷ []) ∷ (10 ∷ []) ∷ []; attached = true }

read_response_frame-IsAnswered_example : IsAnswered (read_response_frame net reading).0
read_response_frame-IsAnswered_example = read_response_frame-IsAnswered net reading

read_response_frame-IsFrame_example :
    IsFrame reading.max_response (read_response_frame net reading).0
read_response_frame-IsFrame_example = read_response_frame-IsFrame net net-IsBounded reading

ping-IsPong_example :
    ((ping net reading).1.written ≡ reading.written)
    × IsKept reading.epoch (ping net reading).1.epoch
    × Plain (ping net reading).0
    × IsPong (ping net reading).1.epoch (ping net reading).0
ping-IsPong_example = ping-IsPong net reading
