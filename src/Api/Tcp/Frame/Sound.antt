-- ===== src/Api/Tcp/Frame/Sound.antt =====
-- The frame that TcpConnection._read_response_frame returns.
use sts2_training.Base.{
  ◌≡◌, refl, inl, inr, ℕ, zero, suc, ◌+◌, ◌-◌, ◌==◌, ◌≤◌, ◌<◌, Bool, true, false, not, Option, none,
  some, List, [], ◌∷◌, ◌++◌, length, all, if◌then◌else◌, Bool-cases, arith,
}
use sts2_training.Base.Outcome.{Result, ok, err}
use sts2_training.Api.Tcp.{
  Await, done, timed_out, os_failed, interrupted, Network, Conn, Trouble, stuck,
}
use sts2_training.Api.Tcp.Io.{Io, ended, continue, pure, raise, wait, ◌>>=◌}
use sts2_training.Api.Tcp.Frame.{
  newline, chunk_bytes, smaller, break_line, behind, with_line, with_chunk, read_some, read_frame,
  read_response_frame, Line,
}

-- The bytes have no newline; they have one, and it is the last of them.
abbrev pub is_open : List ℕ → Bool
is_open bs = all (λ b. not (b == newline)) bs

abbrev is_empty : List ℕ → Bool
is_empty [] = true
is_empty (b ∷ bs) = false

abbrev pub is_line : List ℕ → Bool
is_line [] = false
is_line (b ∷ bs) = if b == newline then is_empty bs else is_line bs

-- StreamReader.read returns at most as many bytes as it is asked for.
abbrev pub IsBounded : {N : Type 0} → Network N → Type 0
IsBounded {N} net = (n : N) (k : ℕ) (bs : List ℕ) → (net.read n k).0 ≡ done bs → length bs ≤ k

length_append : (a b : List ℕ) → length (a ++ b) ≡ length a + length b
length_append [] b = omega arith
length_append (x ∷ a) b = let ih = length_append a b in omega arith

is_open_append : (a b : List ℕ) → is_open a ≡ true → is_open b ≡ true → is_open (a ++ b) ≡ true
is_open_append [] b h k = k
is_open_append (x ∷ a) b h k =
    let rest : is_open a ≡ true = ground arith in ground (arith, is_open_append a b rest k)

is_line_append : (a b : List ℕ) → is_open a ≡ true → is_line b ≡ true → is_line (a ++ b) ≡ true
is_line_append [] b h k = k
is_line_append (x ∷ a) b h k =
    let rest : is_open a ≡ true = ground arith in ground (arith, is_line_append a b rest k)

-- What break_line makes of a chunk.
abbrev IsBroken : List ℕ → Option Line → Type 0
IsBroken chunk none = is_open chunk ≡ true
IsBroken chunk (some (line, rest)) =
    (is_line line ≡ true) × (length line + length rest ≡ length chunk)

behind-IsBroken :
    (b : ℕ) (bs : List ℕ) (o : Option Line)
    → (b == newline) ≡ false
    → IsBroken bs o
    → IsBroken (b ∷ bs) (behind b o)
behind-IsBroken b bs none n h = rw n h
behind-IsBroken b bs (some (line, rest)) n h = (rw n h.0, let e = h.1 in omega arith)

break_line-IsBroken : (bs : List ℕ) → IsBroken bs (break_line bs)
unfolding break_line
break_line-IsBroken [] = refl
break_line-IsBroken (b ∷ bs) = elim (Bool-cases (b == newline)) [
  | inl h ↦ rw h (refl, omega arith)
  | inr h ↦ rw h (behind-IsBroken b bs (break_line bs) h (break_line-IsBroken bs))
]

at_most : {a b d : ℕ} → a ≤ b → b ≤ d → a ≤ d
at_most h k = omega arith

absurd : (n : ℕ) → n < 0 → ⊥
absurd n h = omega arith

smaller-le : (a b : ℕ) → smaller a b ≤ b
smaller-le a b = ground arith

-- The result of a read: a line within the limit, or a failure.
abbrev pub IsFrame : ℕ → Result Trouble (List ℕ) → Type 0
IsFrame limit (ok line) = (is_line line ≡ true) × (length line ≤ limit)
IsFrame limit (err t) = Unit

-- The loop did not run out of its fuel.
abbrev pub IsAnswered : Result Trouble (List ℕ) → Type 0
IsAnswered (err stuck) = ⊥
IsAnswered r = Unit

module _ {N : Type 0} (loop : ℕ → List ℕ → Io N (List ℕ)) (remaining : ℕ) (frame : List ℕ) where
  module _ (limit : ℕ) (p : is_open frame ≡ true)
      (h : (chunk : List ℕ) (c : Conn N)
        → is_open (frame ++ chunk) ≡ true
        → length chunk ≤ remaining
        → IsFrame limit (loop (remaining - length chunk) (frame ++ chunk) c).0)
      (room : length frame + remaining ≤ limit) where
    with_line-IsFrame :
        (chunk : List ℕ) (o : Option Line) (c : Conn N)
        → IsBroken chunk o
        → length chunk ≤ remaining
        → IsFrame limit (with_line loop remaining frame chunk o c).0
    unfolding pure raise
    with_line-IsFrame chunk none c b l = h chunk c (is_open_append frame chunk p b) l
    with_line-IsFrame chunk (some (line, [])) c b l = (
      is_line_append frame line p b.0,
      let e = b.1 in let a = length_append frame line in omega arith,
    )
    with_line-IsFrame chunk (some (line, x ∷ xs)) c b l = tt

    with_chunk-IsFrame :
        (chunk : List ℕ) (c : Conn N)
        → length chunk ≤ remaining
        → IsFrame limit (with_chunk loop remaining frame chunk c).0
    unfolding with_chunk raise
    with_chunk-IsFrame [] c l = tt
    with_chunk-IsFrame (b ∷ bs) c l =
        with_line-IsFrame (b ∷ bs) (break_line (b ∷ bs)) c (break_line-IsBroken (b ∷ bs)) l

    read-IsFrame :
        (a : Await (List ℕ)) (c : Conn N)
        → ((bs : List ℕ) → a ≡ done bs → length bs ≤ remaining)
        → IsFrame limit (continue (ended a) (with_chunk loop remaining frame) c).0
    read-IsFrame (done bs) c l = with_chunk-IsFrame bs c (l bs refl)
    read-IsFrame timed_out c l = tt
    read-IsFrame os_failed c l = tt
    read-IsFrame interrupted c l = tt

  module _
      (h : (x : ℕ) (xs : List ℕ) (c : Conn N)
        → IsAnswered (loop (remaining - length (x ∷ xs)) (frame ++ (x ∷ xs)) c).0) where
    with_line-IsAnswered :
        (x : ℕ) (xs : List ℕ) (o : Option Line) (c : Conn N)
        → IsAnswered (with_line loop remaining frame (x ∷ xs) o c).0
    unfolding pure raise
    with_line-IsAnswered x xs none c = h x xs c
    with_line-IsAnswered x xs (some (line, [])) c = tt
    with_line-IsAnswered x xs (some (line, b ∷ bs)) c = tt

    with_chunk-IsAnswered :
        (chunk : List ℕ) (c : Conn N) → IsAnswered (with_chunk loop remaining frame chunk c).0
    unfolding with_chunk raise
    with_chunk-IsAnswered [] c = tt
    with_chunk-IsAnswered (x ∷ xs) c = with_line-IsAnswered x xs (break_line (x ∷ xs)) c

    read-IsAnswered :
        (a : Await (List ℕ)) (c : Conn N)
        → IsAnswered (continue (ended a) (with_chunk loop remaining frame) c).0
    read-IsAnswered (done bs) c = with_chunk-IsAnswered bs c
    read-IsAnswered timed_out c = tt
    read-IsAnswered os_failed c = tt
    read-IsAnswered interrupted c = tt

module _ {N : Type 0} (net : Network N) where
  read_frame-IsAnswered :
      (fuel remaining : ℕ) (frame : List ℕ) (c : Conn N)
      → remaining < fuel
      → IsAnswered (read_frame net fuel remaining frame c).0
  unfolding read_frame wait raise ◌>>=◌
  read_frame-IsAnswered zero remaining frame c l = elim (absurd remaining l) [ ]
  read_frame-IsAnswered (suc fuel) zero frame c l = tt
  read_frame-IsAnswered (suc fuel) (suc remaining) frame c l =
      read-IsAnswered (read_frame net fuel) (suc remaining) frame
        (λ x xs d. read_frame-IsAnswered fuel (suc remaining - length (x ∷ xs)) _ d (omega arith))
        (read_some net (suc remaining) c.net).0 _

  -- Reading a response frame ends: the fuel of the loop is enough, whatever the network sends.
  pub read_response_frame-IsAnswered : (c : Conn N) → IsAnswered (read_response_frame net c).0
  unfolding read_response_frame
  read_response_frame-IsAnswered c =
      read_frame-IsAnswered (suc c.max_response) c.max_response [] c (omega arith)

  module _ (law : IsBounded net) where
    read_frame-IsFrame :
        (limit fuel remaining : ℕ) (frame : List ℕ) (c : Conn N)
        → is_open frame ≡ true
        → length frame + remaining ≤ limit
        → IsFrame limit (read_frame net fuel remaining frame c).0
    unfolding read_frame wait raise ◌>>=◌
    read_frame-IsFrame limit zero remaining frame c p l = tt
    read_frame-IsFrame limit (suc fuel) zero frame c p l = tt
    read_frame-IsFrame limit (suc fuel) (suc remaining) frame c p l =
        read-IsFrame (read_frame net fuel) (suc remaining) frame limit p
          (λ chunk d k m.
            read_frame-IsFrame limit fuel (suc remaining - length chunk) (frame ++ chunk) d k
              (let a = length_append frame chunk in omega arith))
          l (read_some net (suc remaining) c.net).0 _
          (λ bs e.
            at_most (law c.net (smaller chunk_bytes (suc remaining)) bs e)
              (smaller-le chunk_bytes (suc remaining)))

    -- A frame that is read ends with its only newline and is no longer than the connection allows,
    -- where a read returns at most as many bytes as it is asked for.
    pub read_response_frame-IsFrame :
        (c : Conn N) → IsFrame c.max_response (read_response_frame net c).0
    unfolding read_response_frame
    read_response_frame-IsFrame c =
        read_frame-IsFrame c.max_response (suc c.max_response) c.max_response [] c refl
          (omega arith)
