-- ===== src/Api/Tcp.antt =====
-- src/sts2_training/api/tcp_connection.py: one session's connection to the RL server. Sockets, the
-- event loop and the json module are not under the repository: they are a parameter.
pub mod Io
pub mod Frame
pub mod Connect
pub mod Exchange
pub mod Ping
pub mod Calm
pub mod Settled
pub mod Sound
pub mod Environment
use sts2_training.Base.{ℕ, String, Bool, Option, List}
use sts2_training.Json.{Fields, Value}
use sts2_training.Api.Errors.{Exc}

-- How an await ends: asyncio.timeout_at may end it, an OSError, or a cancellation of the task.
pub data Await (A : Type 0) : Type 0 where
  done : A → Await A
  timed_out os_failed interrupted : Await A

-- How json.loads ends: with a value, with JSONDecodeError or UnicodeDecodeError, with the ValueError
-- of a number that has too many digits, or with RecursionError, which is a RuntimeError.
pub data Loaded : Type 0 where
  loaded : Value → Loaded
  malformed too_long too_deep : Loaded

pub record Network (N : Type 0) : Type 0 where
  -- asyncio.Lock.acquire, asyncio.open_connection, and close with wait_closed
  pub lock : N → Await (Unit {0}) × N
  pub dial : N → Await (Unit {0}) × N
  pub close : N → Await (Unit {0}) × N
  -- StreamWriter.write with drain, and StreamReader.read of at most so many bytes
  pub send : N → List ℕ → Await (Unit {0}) × N
  pub read : N → ℕ → Await (List ℕ) × N
  -- neither at_eof nor is_closing
  pub healthy : N → Bool
  -- json.dumps with encode, and json.loads
  pub encode : Fields → List ℕ
  pub decode : List ℕ → Loaded

-- The fields of TcpConnection. `_reader` and `_writer` are set and cleared together: `attached` says
-- whether they are set.
pub record Conn (N : Type 0) : Type 0 where
  pub net : N
  pub attached : Bool
  pub closed : Bool
  pub epoch : Option String
  pub session : String
  pub max_message : ℕ
  pub max_response : ℕ
  -- not a field of the class: the requests given to the writer, the latest first
  pub written : List Fields

-- What may be raised inside the connection. `stuck` is the model's own: a loop that ran out of fuel.
pub data Trouble : Type 0 where
  timeout_error os_error cancelled_error stuck : Trouble
  raised : Exc → Trouble
