-- ===== src/Cpp.antt =====
-- The second implementation, under cpp: a client that names a file and sends it, and a server that
-- writes what it receives, over boost::asio. What both print is kept in a console.
pub mod Header
pub mod Server
pub mod Client
pub mod Session
use Prim.Native.String.{String}
use net_file_transfer.Base.{ℕ, List, [], ◌∷◌, ◌++◌, Bool, true, false}
use net_file_transfer.Log.{LogArg}
use net_file_transfer.Asio.{ErrorCode, success, eof, failure}

-- A line of the debug log or of the standard streams, as its format and arguments; `error_in` is
-- "ERROR:[%s]%s\n" with the name of a function.
pub data Line : Type 0 where
  debug to_stdout to_stderr : String → List LogArg → Line
  error_in : String → List ℕ → Line

abbrev pub Console : Type 0
Console = List Line

-- The conversion of an error code to `bool`.
abbrev pub is_error : ErrorCode → Bool
is_error success = false
is_error eof = true
is_error (failure n) = true

-- `err == boost::asio::error::eof`.
abbrev pub is_eof : ErrorCode → Bool
is_eof success = false
is_eof eof = true
is_eof (failure n) = false
