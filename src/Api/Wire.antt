-- ===== src/Api/Wire.antt =====
-- The discipline of the wire: which requests the server may have received, and in which order. The
-- requests are those of async_client.py; the states below are the ones between its methods.
pub mod Triple
pub mod Execute
pub mod Built
pub mod Accept
pub mod Recording
pub mod Operations
pub mod Cleanup
pub mod Retry
pub mod Run
pub mod Blocked
pub mod Lost
pub mod Kept
use sts2_training.Base.{
  ℕ, ◌<◌, ◌≡◌, ◌⊎◌, inl, inr, refl, String, Bool, true, false, Option, none, some, List, [], ◌∷◌,
  All, All-map, arith, ◌+◌,
}
use sts2_training.Json.{Fields}
use sts2_training.Api.Client.{Client, seq_of, session_of}

-- A request g that stands behind a request f has a smaller number, or is f itself, sent again.
abbrev pub Follows : Fields → Fields → Type 0
Follows f g = (n : ℕ) × (k : ℕ) × (seq_of f ≡ some n) × (seq_of g ≡ some k) × ((k < n) ⊎ (g ≡ f))

abbrev pub IsOrderly : List Fields → Type 0
IsOrderly [] = Unit
IsOrderly (f ∷ wire) = All (Follows f) wire × IsOrderly wire

-- The part of the client's state that the discipline is about.
pub record Core : Type 0 where
  pub session : String
  pub next : ℕ
  pub pending : Option Fields
  pub invalid : Bool
  pub wire : List Fields

abbrev pub core : {L A : Type 0} → Client L A → Core
core c = record {
  session = c.client_session_id;
  next = c.next_request_seq;
  pending = c.pending_retry;
  invalid = c.session_invalid;
  wire = c.wire;
}

abbrev pub Older : ℕ → Fields → Type 0
Older n f = (k : ℕ) × (seq_of f ≡ some k) × (k < n)

abbrev pub Past : ℕ → Fields → Fields → Type 0
Past n t f = Older n f ⊎ (f ≡ t)

-- Nothing is unresolved, and every number on the wire is used up.
pub record IsIdle (s : Core) : Type 0 where
  pub orderly : IsOrderly s.wire
  pub older : All (Older s.next) s.wire
  pub free : s.pending ≡ none
  pub live : s.invalid ≡ false

-- The request t has the next number of the session.
pub record IsNext (t : Fields) (s : Core) : Type 0 where
  pub numbered : seq_of t ≡ some s.next
  pub owned : session_of t ≡ some s.session

-- The request t is unresolved.
pub record IsStuck (t : Fields) (s : Core) : Type 0 where
  pub orderly : IsOrderly s.wire
  pub past : All (Past s.next t) s.wire
  pub kept : s.pending ≡ some t
  pub live : s.invalid ≡ false
  pub is_next : IsNext t s

-- The session is invalid.
pub record IsDead (s : Core) : Type 0 where
  pub orderly : IsOrderly s.wire
  pub free : s.pending ≡ none
  pub invalid : s.invalid ≡ true

-- Between two calls.
pub data IsSafe (s : Core) : Type 0 where
  idle : IsIdle s → IsSafe s
  stuck : (t : Fields) → IsStuck t s → IsSafe s
  dead : IsDead s → IsSafe s

-- Before an exchange of t.
pub data IsTurn (t : Fields) (s : Core) : Type 0 where
  fresh : IsIdle s → IsNext t s → IsTurn t s
  again : IsStuck t s → IsTurn t s

-- After an exchange of t that the server may have seen, before the answer is accepted.
pub record IsInFlight (t : Fields) (s : Core) : Type 0 where
  pub orderly : IsOrderly s.wire
  pub past : All (Past s.next t) s.wire
  pub pending : (s.pending ≡ none) ⊎ (s.pending ≡ some t)
  pub live : s.invalid ≡ false
  pub is_next : IsNext t s

pub IsTurn-IsSafe : {t : Fields} {s : Core} → IsTurn t s → IsSafe s
IsTurn-IsSafe (fresh h n) = idle h
IsTurn-IsSafe {t} (again h) = stuck t h

pub IsTurn-IsInFlight : {t : Fields} {s : Core} → IsTurn t s → IsInFlight t s
IsTurn-IsInFlight {t} {s} (fresh h n) = record {
  orderly = h.orderly;
  past = All-map (Older s.next) (Past s.next t) s.wire (λ f o. inl o) h.older;
  pending = inl h.free;
  live = h.live;
  is_next = n;
}
IsTurn-IsInFlight (again h) = record {
  orderly = h.orderly;
  past = h.past;
  pending = inr h.kept;
  live = h.live;
  is_next = h.is_next;
}

-- The request goes out once more, or for the first time.
pub IsInFlight-sent :
    {t : Fields} {s : Core} → IsInFlight t s → IsInFlight t (record s { wire = t ∷ s.wire })
IsInFlight-sent {t} {s} h = record {
  orderly = (All-map (Past s.next t) (Follows t) s.wire follows h.past, h.orderly);
  past = (inr refl, h.past);
  pending = h.pending;
  live = h.live;
  is_next = record { numbered = h.is_next.numbered; owned = h.is_next.owned };
}
  where
    follows : (f : Fields) → Past s.next t f → Follows t f
    follows f (inl (k, e, lt)) = (s.next, k, h.is_next.numbered, e, inl lt)
    follows f (inr same) =
        (s.next, s.next, h.is_next.numbered, rw same h.is_next.numbered, inr same)

pub IsInFlight-kept :
    {t : Fields} {s : Core} → IsInFlight t s → IsStuck t (record s { pending = some t })
IsInFlight-kept h = record {
  orderly = h.orderly;
  past = h.past;
  kept = refl;
  live = h.live;
  is_next = record { numbered = h.is_next.numbered; owned = h.is_next.owned };
}

-- The number is used up.
pub IsInFlight-consumed :
    {t : Fields} {s : Core}
    → IsInFlight t s
    → IsIdle (record s { pending = none; next = s.next + 1 })
IsInFlight-consumed {t} {s} h = record {
  orderly = h.orderly;
  older = All-map (Past s.next t) (Older (s.next + 1)) s.wire older h.past;
  free = refl;
  live = h.live;
}
  where
    older : (f : Fields) → Past s.next t f → Older (s.next + 1) f
    older f (inl (k, e, lt)) = (k, e, omega arith)
    older f (inr same) = (s.next, rw same h.is_next.numbered, omega arith)

pub IsInFlight-IsDead :
    {t : Fields} {s : Core} → IsInFlight t s → IsDead (record s { pending = none; invalid = true })
IsInFlight-IsDead h = record { orderly = h.orderly; free = refl; invalid = refl }

pub IsIdle-IsDead : {s : Core} → IsIdle s → IsDead (record s { invalid = true })
IsIdle-IsDead h = record { orderly = h.orderly; free = h.free; invalid = refl }
