-- ===== src/Api/Tcp/Settled.antt =====
-- How TcpConnection.exchange may end, and its last steps.
use sts2_training.Base.{
  ap, str_eq_iff, ◌≡◌, ◌⊎◌, inl, inr, refl, subst, ℕ, String, Bool, true, false, Option, none, some,
  List, ◌∷◌, Bool-cases,
}
use sts2_training.Base.Outcome.{Result, ok, err}
use sts2_training.Json.{Fields, get, as_text, is_null}
use sts2_training.Api.Errors.{
  Exc, value_error, runtime_error, type_error, key_error, protocol_error, operation_error,
  transport_error, epoch_changed, cancelled,
}
use sts2_training.Api.Interface.{Outcome, replied, failed, delivered, HasToken}
use sts2_training.Api.Tcp.{
  Network, Conn, Trouble, timeout_error, os_error, cancelled_error, stuck, raised,
}
use sts2_training.Api.Tcp.Connect.{disconnect, fits_epoch, first_epoch, json_of}
use sts2_training.Api.Tcp.Exchange.{unsent, lost, closed_with, transmit, opened}
use sts2_training.Api.Tcp.Calm.{IsPlain}

-- What is read in an exchange of the request that starts with the connection c and passes the tests
-- of its session and its size, once the request is written.
abbrev pub heard : {N : Type 0} → Network N → Fields → Conn N → Result Trouble (List ℕ)
heard net request c = (transmit net request (opened net c).1).0

-- The object was read.
abbrev pub Reads : {N : Type 0} → Network N → Result Trouble (List ℕ) → Fields → Type 0
Reads net read r = (line : List ℕ) × (read ≡ ok line) × (json_of (net.decode line) ≡ ok (some r))

-- The object that was read is a transport error.
abbrev pub IsRefusal : {N : Type 0} → Network N → Result Trouble (List ℕ) → Type 0
IsRefusal net read =
    (response : Fields) × Reads net read response
    × (is_null (get "transport_error" response) ≡ false)

-- The line that was read made json.loads raise another exception than its decode errors, and the
-- exchange raises it.
abbrev pub IsEscape : {N : Type 0} → Network N → Result Trouble (List ℕ) → Outcome → Type 0
IsEscape net read o =
    (line : List ℕ) × (t : Trouble) × (read ≡ ok line)
    × (json_of (net.decode line) ≡ err t)
    × (o ≡ failed (unsent t))

-- A reply is the object that was read, it is no transport error, and it carries the epoch that the
-- connection knows afterwards.
abbrev pub IsReply :
    {N : Type 0} → Network N → Result Trouble (List ℕ) → Option String → Outcome → Type 0
IsReply net read epoch (replied r) =
    Reads net read r
    × (is_null (get "transport_error" r) ≡ true)
    × (as_text (get "server_epoch" r) ≡ epoch)
IsReply net read epoch (failed e) = Unit

-- What an exchange says of its request, and whether it was written.
pub data Told {N : Type 0} (net : Network N) (request : Fields) (old : List Fields)
    (read : Result Trouble (List ℕ)) (o : Outcome) (d : Conn N) : Type 0 where
  reported : delivered o ≡ true → d.written ≡ request ∷ old → Told net request old read o d
  unwritten : delivered o ≡ false → d.written ≡ old → Told net request old read o d
  refused : IsRefusal net read → d.written ≡ request ∷ old → Told net request old read o d
  escaped : IsEscape net read o → d.written ≡ request ∷ old → Told net request old read o d

-- A known epoch stays.
abbrev pub IsKept : Option String → Option String → Type 0
IsKept none new = Unit
IsKept (some e) new = new ≡ some e

-- After a failure whose request was perhaps delivered, other than another epoch, the connection is
-- no longer attached: the next exchange opens a new one.
abbrev pub IsTorn : Outcome → Bool → Type 0
IsTorn (failed (transport_error u t)) attached = (u ≡ false) ⊎ (attached ≡ false)
IsTorn (failed (cancelled u t)) attached = (u ≡ false) ⊎ (attached ≡ false)
IsTorn o attached = Unit

-- How an exchange of the request may end.
pub record Settled {N : Type 0} (net : Network N) (request : Fields) (old : List Fields)
    (epoch : Option String) (read : Result Trouble (List ℕ)) (o : Outcome) (d : Conn N)
    : Type 0 where
  pub token : HasToken request o
  pub told : Told net request old read o d
  pub kept : IsKept epoch d.epoch
  pub torn : IsTorn o d.attached
  pub answer : IsReply net read d.epoch o

-- The exception says that the request may have been delivered, and names it.
abbrev pub IsSent : Fields → Exc → Type 0
IsSent q e = HasToken q (failed e) × (delivered (failed e) ≡ true)

pub first-fits_epoch :
    (o : Option String) (actual : String)
    → fits_epoch o actual ≡ true
    → first_epoch o actual ≡ some actual
first-fits_epoch none actual h = refl
first-fits_epoch (some e) actual h = ap some ((str_eq_iff e actual).0 h)

pub IsKept-of : (o new : Option String) → ((e : String) → o ≡ some e → new ≡ some e) → IsKept o new
IsKept-of none new h = tt
IsKept-of (some e) new h = h e refl

pub IsKept-same : (o : Option String) → IsKept o o
IsKept-same o = IsKept-of o o (λ e h. h)

pub IsKept-trans :
    (o mid new : Option String)
    → ((e : String) → o ≡ some e → mid ≡ some e)
    → IsKept mid new
    → IsKept o new
IsKept-trans none mid new h k = tt
IsKept-trans (some e) mid new h k = subst (λ m. IsKept m new) (h e refl) k

pub closed-IsTorn : (o : Outcome) (attached : Bool) → attached ≡ false → IsTorn o attached
closed-IsTorn (replied r) attached h = tt
closed-IsTorn (failed (transport_error u t)) attached h = inr h
closed-IsTorn (failed (cancelled u t)) attached h = inr h
closed-IsTorn (failed (epoch_changed u t)) attached h = tt
closed-IsTorn (failed value_error) attached h = tt
closed-IsTorn (failed runtime_error) attached h = tt
closed-IsTorn (failed type_error) attached h = tt
closed-IsTorn (failed key_error) attached h = tt
closed-IsTorn (failed protocol_error) attached h = tt
closed-IsTorn (failed (operation_error r)) attached h = tt

pub unsent-IsTorn :
    (t : Trouble) (attached : Bool) → IsPlain t → IsTorn (failed (unsent t)) attached
unfolding unsent
unsent-IsTorn (raised (transport_error u t)) attached h = inl h.0
unsent-IsTorn (raised (epoch_changed u t)) attached h = tt
unsent-IsTorn (raised (cancelled u t)) attached h = inl h.0
unsent-IsTorn (raised value_error) attached h = tt
unsent-IsTorn (raised runtime_error) attached h = tt
unsent-IsTorn (raised type_error) attached h = tt
unsent-IsTorn (raised key_error) attached h = tt
unsent-IsTorn (raised protocol_error) attached h = tt
unsent-IsTorn (raised (operation_error r)) attached h = tt
unsent-IsTorn timeout_error attached h = inl refl
unsent-IsTorn os_error attached h = inl refl
unsent-IsTorn cancelled_error attached h = inl refl
unsent-IsTorn stuck attached h = inl refl

pub disconnect-attached :
    {N : Type 0} (net : Network N) (c : Conn N) → (disconnect net c).1.attached ≡ false
unfolding disconnect
disconnect-attached net c = elim (Bool-cases c.attached) [ inl h ↦ rw h refl | inr h ↦ rw h refl ]

pub unsent-delivered : (t : Trouble) → IsPlain t → delivered (failed (unsent t)) ≡ false
unfolding unsent
unsent-delivered (raised (transport_error u t)) h = h.0
unsent-delivered (raised (epoch_changed u t)) h = h.0
unsent-delivered (raised (cancelled u t)) h = h.0
unsent-delivered (raised value_error) h = refl
unsent-delivered (raised runtime_error) h = refl
unsent-delivered (raised type_error) h = refl
unsent-delivered (raised key_error) h = refl
unsent-delivered (raised protocol_error) h = refl
unsent-delivered (raised (operation_error r)) h = refl
unsent-delivered timeout_error h = refl
unsent-delivered os_error h = refl
unsent-delivered cancelled_error h = refl
unsent-delivered stuck h = refl

module _ (q : Fields) where
  pub unsent-token : (t : Trouble) → IsPlain t → HasToken q (failed (unsent t))
  unfolding unsent
  unsent-token (raised (transport_error u t)) h = inl h.1
  unsent-token (raised (epoch_changed u t)) h = tt
  unsent-token (raised (cancelled u t)) h = inl h.1
  unsent-token (raised value_error) h = tt
  unsent-token (raised runtime_error) h = tt
  unsent-token (raised type_error) h = tt
  unsent-token (raised key_error) h = tt
  unsent-token (raised protocol_error) h = tt
  unsent-token (raised (operation_error r)) h = tt
  unsent-token timeout_error h = inl refl
  unsent-token os_error h = inl refl
  unsent-token cancelled_error h = inl refl
  unsent-token stuck h = inl refl

  pub lost-IsSent : (t : Trouble) → IsSent q (lost q t)
  unfolding lost
  lost-IsSent cancelled_error = (inr refl, refl)
  lost-IsSent timeout_error = (inr refl, refl)
  lost-IsSent os_error = (inr refl, refl)
  lost-IsSent stuck = (inr refl, refl)
  lost-IsSent (raised e) = (inr refl, refl)

  pub closed-IsSent :
      (e : Exc) (r : Result Trouble (Unit {0}))
      → IsSent q e
      → HasToken q (closed_with q e r) × (delivered (closed_with q e r) ≡ true)
  closed-IsSent e (ok u) h = h
  closed-IsSent e (err cancelled_error) h = (inr refl, refl)
  closed-IsSent e (err timeout_error) h = h
  closed-IsSent e (err os_error) h = h
  closed-IsSent e (err stuck) h = h
  closed-IsSent e (err (raised x)) h = h

  pub closed-IsReply :
      {N : Type 0} (net : Network N) (read : Result Trouble (List ℕ)) (epoch : Option String)
      (e : Exc) (r : Result Trouble (Unit {0}))
      → IsReply net read epoch (closed_with q e r)
  closed-IsReply net read epoch e (ok u) = tt
  closed-IsReply net read epoch e (err cancelled_error) = tt
  closed-IsReply net read epoch e (err timeout_error) = tt
  closed-IsReply net read epoch e (err os_error) = tt
  closed-IsReply net read epoch e (err stuck) = tt
  closed-IsReply net read epoch e (err (raised x)) = tt

  pub closed-token :
      (r : Result Trouble (Unit {0})) → HasToken q (closed_with q (transport_error false none) r)
  closed-token (ok u) = inl refl
  closed-token (err cancelled_error) = inr refl
  closed-token (err timeout_error) = inl refl
  closed-token (err os_error) = inl refl
  closed-token (err stuck) = inl refl
  closed-token (err (raised x)) = inl refl
