-- ===== src/Cpp/Server.antt =====
-- cpp/server.cc: the classes `AsyncTcpConnection` and `AsyncTcpServer` and `main`. A handler gives
-- back the connection and the operation that it starts, whose handler is called next.
pub mod Rounds
pub mod Receive
pub mod Accept
pub mod Refused
pub mod Run
pub mod Ends
pub mod Handlers
pub mod Safe
use Prim.Native.String.{String}
use net_file_transfer.Base.{
  ℕ, zero, suc, ◌+◌, ◌%◌, ◌^◌, Bool, true, false, List, [], ◌∷◌, ◌++◌, Option, none, some, Outcome,
  ok, fault, out_of_fuel, ◌>>=◌, length, drop, ltb, if◌then◌else◌,
}
use net_file_transfer.Memory.{text}
use net_file_transfer.Log.{LogArg, number, string}
use net_file_transfer.Stdio.{
  World, FileName, Writing, new_writing, bufsiz, fopen_wb, fwrite, fclose,
}
use net_file_transfer.Asio.{Asio, ErrorCode}
use net_file_transfer.Config.{atoi, to_short}
use net_file_transfer.Cpp.{Line, Console, debug, to_stdout, to_stderr, error_in, is_error, is_eof}
use net_file_transfer.Cpp.Header.{max_filename_len, decode_fileinfo}

-- An open `FILE`: the name it was opened under, and what it holds.
pub record File : Type 0 where
  pub name : FileName
  pub writing : Writing

-- `fp` is what `fp_` leads to, if it was opened. `buf_` only hands the bytes received to `fwrite`.
pub record Connection (io : Asio) : Type 0 where
  pub info : List ℕ
  pub filename : List ℕ
  pub fp : Option File
  pub socket : io.Socket
  pub bufsize : ℕ
  pub filesize : ℕ
  pub world : World
  pub console : Console

-- The operation under way, named by its handler: none, `handle_read_request`, `handle_write_file`.
pub data Pending : Type 0 where
  nothing read_request write_file : Pending

module _ (io : Asio) where
  -- `AsyncTcpConnection(service)`, where `info` is what stands in the array.
  unfoldable pub new_connection : List ℕ → io.Socket → World → Connection io
  new_connection info socket w = record {
    info = info;
    filename = [];
    fp = none;
    socket = socket;
    bufsize = bufsiz;
    filesize = 0;
    world = w;
    console = [];
  }

  abbrev pub print : Line → Connection io → Connection io
  print line c = record c { console = c.console ++ line ∷ [] }

  -- `start()`: the name is asked for.
  unfoldable pub start : Connection io → Connection io × Pending
  start c = (print (to_stdout "start...\n" []) c, read_request)

  -- `handle_error(func_name, err)`.
  unfoldable pub handle_error : String → ErrorCode → Connection io → Connection io
  handle_error func_name err c =
      if is_error err then print (error_in func_name (io.message err)) c else c

  -- What follows `fopen`: an error message, or the first read of the file.
  unfoldable pub receive_into : List ℕ → Connection io → Option World → Connection io × Pending
  receive_into name c none = (print (to_stderr "open file ERROR.\n" []) c, nothing)
  receive_into name c (some w) = (
    record c { world = w; fp = some (record { name = name; writing = new_writing w }) },
    write_file,
  )

  -- `fopen(filename_.c_str(), "wb")`, and what follows.
  unfoldable pub open_file : List ℕ → Connection io → Connection io × Pending
  unfolding receive_into
  open_file name c = receive_into name c (fopen_wb c.world name)

  -- `handle_read_request(err, bytes_transferred)`.
  unfoldable pub handle_read_request : ErrorCode → Connection io → Outcome (Connection io × Pending)
  unfolding handle_error
  handle_read_request err c =
      if is_error err then ok (handle_error "handle_read_request" err c, nothing) else (do
        filename ← decode_fileinfo c.info
        name ← text (filename ++ 0 ∷ [])
        ok (
            open_file name (
              print (debug "filename:" (string filename ∷ [])) (record c { filename = filename }))))

  -- `fwrite(buf_, 1, bytes_transferred, fp_)`, and its count.
  unfoldable pub write_received : List ℕ → File → Connection io → File × Connection io
  unfolding fwrite
  write_received bytes fp c =
      let (n, writing) = fwrite fp.writing bytes in
      (record fp { writing = writing }, record c { filesize = (c.filesize + n) % 2 ^ 64 })

  -- `fclose(fp_)`.
  abbrev pub close_file : File → Connection io → Connection io
  close_file fp c = record c { fp = none; world = fclose c.world fp.name fp.writing }

  -- The end of the stream: the last bytes are written, and the connection and the file closed.
  unfoldable pub finish_file : List ℕ → File → Connection io → Connection io
  unfolding write_received
  finish_file bytes fp c =
      let (fp', c₁) = write_received bytes fp c in
      let c₂ = print (debug "filesize:" (number c₁.filesize ∷ [])) c₁ in
      close_file fp' (record c₂ { socket = io.close c₂.socket })

  -- A full buffer: it is written, and the next one asked for.
  unfoldable pub write_more : List ℕ → File → Connection io → Connection io
  unfolding write_received
  write_more bytes fp c =
      if ltb 0 (length bytes)
      then (let (fp', c₁) = write_received bytes fp c in record c₁ { fp = some fp' })
      else c

  -- `handle_write_file(err, bytes_transferred)`, with the bytes in `buf_`.
  unfoldable pub handle_write_file :
      ErrorCode → List ℕ → Connection io → Outcome (Connection io × Pending)
  unfolding handle_error
  handle_write_file err bytes c =
      let c₁ = print (debug "recv:" (number (length bytes) ∷ [])) c in
      elim c.fp [
        | none ↦ fault
        | some fp ↦
            if is_error err
            then (if is_eof err
                then ok (finish_file bytes fp c₁, nothing)
                else ok (close_file fp (handle_error "handle_write_file" err c₁), nothing))
            else ok (write_more bytes fp c₁, write_file)
      ]

  -- One operation of a connection is done, and its handler called.
  unfoldable pub complete : Pending → Connection io → Outcome (Connection io × Pending)
  complete nothing c = ok (c, nothing)
  complete read_request c =
      let (err, bytes, socket) = io.async_read c.socket max_filename_len in
      handle_read_request err
        (record c { info = bytes ++ drop (length bytes) c.info; socket = socket })
  complete write_file c =
      let (err, bytes, socket) = io.async_read c.socket c.bufsize in
      handle_write_file err bytes (record c { socket = socket })

  abbrev pub is_nothing : Pending → Bool
  is_nothing nothing = true
  is_nothing read_request = false
  is_nothing write_file = false

  -- `service_.run()` for a connection: it returns when no operation is left.
  unfoldable pub service_run : ℕ → Pending → Connection io → Outcome (Connection io)
  service_run zero next c = if is_nothing next then ok c else out_of_fuel
  service_run (suc fuel) next c =
      let more = (do (c', next') ← complete next c; service_run fuel next' c') in
      if is_nothing next then ok c else more

  -- `handle_accept(cur_conn, err)`: no further connection is accepted.
  unfoldable pub handle_accept : ErrorCode → Connection io → Connection io × Pending
  unfolding start
  handle_accept err c = if is_error err then (c, nothing) else start c

  -- The run of an `AsyncTcpServer`: the connection that it served, if one came, and the peers that
  -- connected later.
  pub record Served : Type 0 where
    pub connection : Option (Connection io)
    pub unaccepted : List (ErrorCode × io.Socket)

  -- `AsyncTcpServer(port)`, given the peers that connect, with what the accept reports. Without any
  -- `service_.run()` waits for ever, and no fuel is enough.
  unfoldable pub async_tcp_server :
      ℕ → List ℕ → World → List (ErrorCode × io.Socket) → Outcome Served
  unfolding handle_accept new_connection
  async_tcp_server fuel info w [] = out_of_fuel
  async_tcp_server fuel info w ((err, socket) ∷ others) = do
    let (c, next) = handle_accept err (new_connection info socket w)
    c' ← service_run fuel next c
    ok (record { connection = some c'; unaccepted = others })

-- What `main` printed besides, and how the server ended if it was started.
pub record ServerEnd (io : Asio) : Type 0 where
  pub exit_code : ℕ
  pub lines : Console
  pub served : Option (Served io)

-- What `main` tries: the server on the port that the text denotes. `bound` says for which ports
-- the acceptor is made; otherwise its constructor throws an exception with the text `what`.
unfoldable pub serve_port :
    (io : Asio)
    → (ℕ → Bool)
    → List ℕ
    → ℕ
    → List ℕ
    → World
    → List (ErrorCode × io.Socket)
    → List ℕ
    → Outcome (ServerEnd io)
serve_port io bound what fuel info w peers argument = do
  v ← atoi (argument ++ 0 ∷ [])
  let port = to_short v
  let lines = to_stdout "listening on port:%u...\n" (number port ∷ []) ∷ []
  elim (bound port) [
    | true ↦ (do
      served ← async_tcp_server io fuel info w peers
      ok (record { exit_code = 0; lines = lines; served = some served }))
    | false ↦ ok (record {
      exit_code = 0;
      lines = lines ++ to_stderr "ERROR:%s\n" (string what ∷ []) ∷ [];
      served = none;
    })
  ]

abbrev usage : (io : Asio) → List LogArg → Outcome (ServerEnd io)
usage io name =
    ok (record { exit_code = 1; lines = to_stderr "usage:%s port.\n" name ∷ []; served = none })

-- `main`, on the words of the command line, as texts without their NULs.
unfoldable pub main :
    (io : Asio)
    → (ℕ → Bool)
    → List ℕ
    → ℕ
    → List ℕ
    → World
    → List (ErrorCode × io.Socket)
    → List (List ℕ)
    → Outcome (ServerEnd io)
unfolding serve_port
main io bound what fuel info w peers [] = usage io []
main io bound what fuel info w peers (name ∷ []) = usage io (string name ∷ [])
main io bound what fuel info w peers (name ∷ argument ∷ []) =
    serve_port io bound what fuel info w peers argument
main io bound what fuel info w peers (name ∷ argument ∷ more ∷ others) = usage io (string name ∷ [])
