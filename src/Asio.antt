-- ===== src/Asio.antt =====
-- boost::asio, which the repository does not hold: the calls that cpp/server.cc and cpp/client.cc
-- make of it, as operations over unknown types, and what the programs rely on. A call that starts
-- an operation is the operation here: its result is what the handler is given.
pub mod Pipes
use net_file_transfer.Base.{ℕ, ◌≤◌, ◌<◌, ◌≡◌, ◌≢◌, Bool, true, List, [], ◌++◌, length, take, drop}

-- `boost::system::error_code`: none, the end of the stream, or another by its number.
pub data ErrorCode : Type 0 where
  success eof : ErrorCode
  failure : ℕ → ErrorCode

pub record Asio : Type 1 where
  pub message : ErrorCode → List ℕ
  pub Endpoint : Type 0
  pub Socket : Type 0
  -- what is still to be received and how it ends; what has been sent; and whether it is the end
  -- of what is sent
  pub incoming : Socket → List ℕ
  pub ending : Socket → ErrorCode
  pub sent : Socket → List ℕ
  pub sent_all : Socket → Bool
  -- a socket whose peer takes all that is sent
  pub healthy : Socket → Bool
  -- host and port
  pub async_resolve : List ℕ → List ℕ → ErrorCode × List Endpoint
  pub async_connect : Endpoint → ErrorCode × Socket
  pub async_read : Socket → ℕ → ErrorCode × List ℕ × Socket
  pub async_write : Socket → List ℕ → ErrorCode × Socket
  pub shutdown_send : Socket → Socket
  pub close : Socket → Socket

-- The documented behaviour.
pub record IsAsio (io : Asio) : Type 0 where
  -- `async_read` ends when the buffer is full, and otherwise with the error that ends the stream
  pub read_full :
      (s : io.Socket) (n : ℕ)
      → n ≤ length (io.incoming s)
      → ((io.async_read s n).0 ≡ success)
        × ((io.async_read s n).1 ≡ take n (io.incoming s))
        × (io.incoming (io.async_read s n).2 ≡ drop n (io.incoming s))
        × (io.ending (io.async_read s n).2 ≡ io.ending s)
  pub read_rest :
      (s : io.Socket) (n : ℕ)
      → length (io.incoming s) < n
      → ((io.async_read s n).0 ≡ io.ending s) × ((io.async_read s n).1 ≡ io.incoming s)
  pub ending_ne_success : (s : io.Socket) → io.ending s ≢ success
  -- a healthy socket takes all bytes, in order, until it is shut down
  pub write_all :
      (s : io.Socket) (d : List ℕ)
      → io.healthy s ≡ true
      → ((io.async_write s d).0 ≡ success)
        × (io.sent (io.async_write s d).1 ≡ io.sent s ++ d)
        × (io.healthy (io.async_write s d).1 ≡ true)
  pub shutdown_sent : (s : io.Socket) → io.sent (io.shutdown_send s) ≡ io.sent s
  pub shutdown_ends : (s : io.Socket) → io.sent_all (io.shutdown_send s) ≡ true
  -- closing loses nothing that was sent
  pub close_sent : (s : io.Socket) → io.sent (io.close s) ≡ io.sent s
  pub close_ends : (s : io.Socket) → io.sent_all s ≡ true → io.sent_all (io.close s) ≡ true
  -- a new connection
  pub connect_sent :
      (e : io.Endpoint) → (io.async_connect e).0 ≡ success → io.sent (io.async_connect e).1 ≡ []
