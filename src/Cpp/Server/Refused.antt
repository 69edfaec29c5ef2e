-- ===== src/Cpp/Server/Refused.antt =====
-- Connections that bring no file.
use net_file_transfer.Base.{
  ℕ, zero, suc, ◌<◌, ◌≡◌, ◌≢◌, refl, true, List, [], ◌∷◌, ◌++◌, some, none, ok, length, drop, arith,
}
use net_file_transfer.Stdio.{World}
use net_file_transfer.Asio.{Asio, IsAsio, ErrorCode, success, eof, failure}
use net_file_transfer.Cpp.{to_stdout, error_in, is_error}
use net_file_transfer.Cpp.Header.{max_filename_len}
use net_file_transfer.Cpp.Server.{
  Connection, nothing, read_request, handle_error, handle_read_request, complete, service_run,
  handle_accept, start, new_connection, async_tcp_server,
}
use net_file_transfer.Cpp.Server.Receive.{service_run-nothing}

is_error_ne : (e : ErrorCode) → e ≢ success → is_error e ≡ true
is_error_ne success ne = absurd (ne refl)
is_error_ne eof ne = refl
is_error_ne (failure n) ne = refl

-- The connection after the first read has failed.
abbrev refused : {io : Asio} → Connection io → List ℕ → io.Socket → Connection io
refused {io} c info socket = record c {
  info = info;
  socket = socket;
  console = c.console ++ error_in "handle_read_request" (io.message (io.ending c.socket)) ∷ [];
}

module _ {io : Asio} (v : IsAsio io) where
  short_request :
      (fuel : ℕ) (c : Connection io)
      → length (io.incoming c.socket) < max_filename_len
      → (info : List ℕ) × (socket : io.Socket) × (service_run io (suc fuel) read_request c
          ≡ service_run io fuel nothing (refused c info socket))
  unfolding service_run complete handle_read_request handle_error
  short_request fuel c short =
      let (err, _) = v.read_rest c.socket max_filename_len short in
      let got = (io.async_read c.socket max_filename_len).1 in
      (
        got ++ drop (length got) c.info,
        (io.async_read c.socket max_filename_len).2,
        rw (err, is_error_ne (io.ending c.socket) (v.ending_ne_success c.socket)) refl,
      )

  -- A connection with fewer bytes than the array of a name, with some fuel, ends with the world
  -- unchanged, no file open, and the error that ended the stream printed with the name of its
  -- handler.
  pub async_tcp_server-short :
      (fuel : ℕ) (array : List ℕ) (w : World) (socket : io.Socket)
      (others : List (ErrorCode × io.Socket))
      → length (io.incoming socket) < max_filename_len
      → 0 < fuel
      → (c : Connection io) × (async_tcp_server io fuel array w ((success, socket) ∷ others)
          ≡ ok (record { connection = some c; unaccepted = others }))
        × (c.world ≡ w)
        × (c.fp ≡ none)
        × (c.console
            ≡ to_stdout "start...\n" []
              ∷ error_in "handle_read_request" (io.message (io.ending socket))
              ∷ [])
  unfolding async_tcp_server handle_accept start new_connection
  async_tcp_server-short zero array w socket others short enough = absurd (omega arith)
  async_tcp_server-short (suc fuel) array w socket others short enough =
      let c = (start io (new_connection io array socket w)).0 in
      let (info, socket', ran) = short_request fuel c short in
      let c' : Connection io = refused c info socket' in
      (c', rw (ran, service_run-nothing io fuel c') refl, refl, refl, refl)
