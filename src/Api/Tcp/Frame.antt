-- ===== src/Api/Tcp/Frame.antt =====
-- TcpConnection._read_response_frame: the bytes up to the first newline, within a limit.
pub mod Sound
use sts2_training.Base.{
  ℕ, zero, suc, ◌+◌, ◌-◌, ◌==◌, leb, Bool, true, false, Option, none, some, List, [], ◌∷◌, ◌++◌,
  length, if◌then◌else◌,
}
use sts2_training.Base.Outcome.{Result, ok, err}
use sts2_training.Api.Errors.{transport_error}
use sts2_training.Api.Tcp.{Await, Network, Conn, Trouble, raised, stuck}
use sts2_training.Api.Tcp.Io.{Io, pure, raise, wait, ◌>>=◌}

abbrev pub newline : ℕ
newline = 10

-- _RESPONSE_READ_CHUNK_BYTES
abbrev pub chunk_bytes : ℕ
chunk_bytes = 65536

abbrev pub smaller : ℕ → ℕ → ℕ
smaller a b = if leb a b then a else b

-- the part of a chunk up to its first newline, and the rest
abbrev pub Line : Type 0
Line = List ℕ × List ℕ

abbrev pub behind : ℕ → Option Line → Option Line
behind b none = none
behind b (some (line, rest)) = some (b ∷ line, rest)

unfoldable pub break_line : List ℕ → Option Line
break_line [] = none
break_line (b ∷ bs) =
    let later = break_line bs in if b == newline then some (newline ∷ [], bs) else behind b later

-- a TransportError of the frame, whose delivery the caller fills in
abbrev pub plain : Trouble
plain = raised (transport_error false none)

module _ {N : Type 0} where
  -- what is done with a chunk: go on, stop, or refuse it
  abbrev pub with_line :
      (ℕ → List ℕ → Io N (List ℕ)) → ℕ → List ℕ → List ℕ → Option Line → Io N (List ℕ)
  with_line loop remaining frame chunk none = loop (remaining - length chunk) (frame ++ chunk)
  with_line loop remaining frame chunk (some (line, [])) = pure (frame ++ line)
  with_line loop remaining frame chunk (some (line, b ∷ bs)) = raise plain

  unfoldable pub with_chunk : (ℕ → List ℕ → Io N (List ℕ)) → ℕ → List ℕ → List ℕ → Io N (List ℕ)
  unfolding break_line
  with_chunk loop remaining frame [] = raise plain
  with_chunk loop remaining frame (b ∷ bs) =
      with_line loop remaining frame (b ∷ bs) (break_line (b ∷ bs))

module _ {N : Type 0} (net : Network N) where
  abbrev pub read_some : ℕ → N → Await (List ℕ) × N
  read_some remaining n = net.read n (smaller chunk_bytes remaining)

  -- the loop, with the bytes that are still allowed and those already read
  unfoldable pub read_frame : ℕ → ℕ → List ℕ → Io N (List ℕ)
  unfolding with_chunk ◌>>=◌
  read_frame zero remaining frame = raise stuck
  read_frame (suc fuel) zero frame = raise plain
  read_frame (suc fuel) (suc remaining) frame =
      wait (read_some (suc remaining)) >>= with_chunk (read_frame fuel) (suc remaining) frame

  -- _read_response_frame; every chunk has a byte, so this fuel is enough
  unfoldable pub read_response_frame : Io N (List ℕ)
  unfolding read_frame
  read_response_frame c = read_frame (suc c.max_response) c.max_response [] c
