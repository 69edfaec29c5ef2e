-- ===== src/Cpp/Client.antt =====
-- cpp/client.cc: the class `AsyncTcpClient` and `main`.
pub mod Endpoints
pub mod Connect
pub mod Send
pub mod Run
pub mod Ends
pub mod Safe
use net_file_transfer.Base.{
  ℕ, zero, suc, ◌+◌, ◌%◌, ◌^◌, Bool, true, false, List, [], ◌∷◌, ◌++◌, Option, none, some, Outcome,
  ok, fault, out_of_fuel, ◌>>=◌, length, ltb, ◌==◌, if◌then◌else◌,
}
use mathlib.Core.Option.{map as map_option}
use net_file_transfer.Memory.{basename}
use net_file_transfer.Log.{LogArg, number, string}
use net_file_transfer.Stdio.{World, fread}
use net_file_transfer.Asio.{Asio, ErrorCode}
use net_file_transfer.Cpp.{Line, Console, debug, to_stdout, to_stderr, is_error, is_eof}
use net_file_transfer.Cpp.Header.{encode_fileinfo}

-- `server_host.find(':')` and the two `substr`: what stands before the first ':' and behind it.
longer_host : ℕ → Option (List ℕ × List ℕ) → Option (List ℕ × List ℕ)
longer_host c none = none
longer_host c (some (host, port)) = some (c ∷ host, port)

unfoldable pub split_colon : List ℕ → Option (List ℕ × List ℕ)
unfolding longer_host
split_colon [] = none
split_colon (c ∷ cs) =
    let rest = longer_host c (split_colon cs) in if c == b':' then some ([], cs) else rest

-- The operation under way: none, or one whose handler is `handle_resolve`, `handle_connect` (with
-- the endpoints left), or `handle_read_file`, for the array that announces the file or for a piece of
-- the file.
pub data Pending (io : Asio) : Type 0 where
  nothing : Pending io
  resolving : List ℕ → List ℕ → Pending io
  connecting : io.Endpoint → List io.Endpoint → Pending io
  announcing : List ℕ → Pending io
  sending : List ℕ → Pending io

-- The local array of `handle_connect`: what stands in it before, and what stands in its place when
-- the bytes are sent, given what it held. The function has returned by then, and nothing keeps the
-- array.
pub record Frame : Type 0 where
  pub before : List ℕ
  pub later : List ℕ → List ℕ

-- `fp` is what is left to be read of the file, while it is open. `socket` is there once a
-- connection was tried.
pub record Client (io : Asio) : Type 0 where
  pub server_host : List ℕ
  pub port : List ℕ
  pub filename : List ℕ
  pub filesize : ℕ
  pub fp : Option (List ℕ)
  pub socket : Option io.Socket
  pub console : Console

module _ (io : Asio) where
  abbrev pub print : Line → Client io → Client io
  print line c = record c { console = c.console ++ line ∷ [] }

  -- The second half of the constructor: the host and the port are split and looked up.
  unfoldable pub resolve : Option (List ℕ × List ℕ) → Client io → Client io × Pending io
  resolve none c = (print (to_stderr "server host parsed ERROR!\n" []) c, nothing)
  resolve (some (host, port)) c =
      (record c { server_host = host; port = port }, resolving host port)

  -- What follows `fopen`, given the file if it was opened.
  unfoldable pub resolve_opened : Option (List ℕ) → List ℕ → Client io → Client io × Pending io
  unfolding split_colon resolve
  resolve_opened none server_host c =
      (print (to_stderr "cannot find file:%s\n" (string c.filename ∷ [])) c, nothing)
  resolve_opened (some content) server_host c =
      resolve (split_colon server_host) (record c { fp = some content })

  -- `AsyncTcpClient(service, server_host, path)`.
  unfoldable pub new_client : World → List ℕ → List ℕ → Client io × Pending io
  unfolding resolve_opened
  new_client w server_host path = resolve_opened (w.file path) server_host (record {
    server_host = [];
    port = [];
    filename = path;
    filesize = 0;
    fp = none;
    socket = none;
    console = [];
  })

  -- `*endpoint_iterator` and `++endpoint_iterator`.
  unfoldable pub connect_first : List io.Endpoint → Outcome (Pending io)
  connect_first [] = fault
  connect_first (e ∷ es) = ok (connecting e es)

  -- `handle_resolve(err, endpoint_iterator)`.
  unfoldable pub handle_resolve :
      ErrorCode → List io.Endpoint → Client io → Outcome (Client io × Pending io)
  unfolding connect_first
  handle_resolve err endpoints c =
      if is_error err
      then ok (print (to_stderr "resolve ERROR:%s\n" (string (io.message err) ∷ [])) c, nothing)
      else (do next ← connect_first endpoints; ok (c, next))

  -- What `handle_connect` does on a connection: `buf` is what stands in its local array.
  unfoldable pub announce : List ℕ → Client io → Outcome (Client io × Pending io)
  announce buf c = do info ← encode_fileinfo buf (basename c.filename); ok (c, announcing info)

  -- What it does on an error.
  unfoldable pub connect_next : ErrorCode → List io.Endpoint → Client io → Client io × Pending io
  connect_next err [] c =
      (print (to_stderr "connect ERROR:%s\n" (string (io.message err) ∷ [])) c, nothing)
  connect_next err (e ∷ es) c = (record c { socket = none }, connecting e es)

  -- `handle_connect(err, endpoint_iterator)`.
  unfoldable pub handle_connect :
      List ℕ → ErrorCode → List io.Endpoint → Client io → Outcome (Client io × Pending io)
  unfolding announce connect_next
  handle_connect buf err endpoints c =
      if is_error err then ok (connect_next err endpoints c) else announce buf c

  -- A round of `handle_read_file` without an error, with `rest` of the file unread.
  unfoldable pub send_more : List ℕ → io.Socket → Client io → Client io × Pending io
  unfolding fread
  send_more rest socket c =
      let (bytes, rest') = fread rest in
      let n = length bytes in
      if ltb 0 n
      then (
        print (debug "send size:" (number n ∷ []))
            (record c { filesize = (c.filesize + n) % 2 ^ 64; fp = some rest' }),
        sending bytes,
      )
      else (
        print (debug "total size:" (number c.filesize ∷ []))
            (record c { fp = none; socket = some (io.shutdown_send socket) }),
        nothing,
      )

  -- `handle_read_file(err)`, on the connection.
  unfoldable pub handle_read_file :
      ErrorCode → io.Socket → Client io → Outcome (Client io × Pending io)
  unfolding send_more
  handle_read_file err socket c =
      if is_error err
      then (if is_eof err
          then ok (record c { socket = some (io.close socket) }, nothing)
          else ok
              (print (to_stderr "send file ERROR:%s\n" (string (io.message err) ∷ [])) c, nothing))
      else elim c.fp [
        | none ↦ fault
        | some rest ↦ ok (send_more rest socket (record c { socket = some socket }))
      ]

  -- The bytes are sent, and the handler called.
  unfoldable pub send : List ℕ → Client io → Outcome (Client io × Pending io)
  send bytes c = elim c.socket [
    | none ↦ fault
    | some socket ↦
        let (err, socket') = io.async_write socket bytes in
        handle_read_file err socket' (record c { socket = some socket' })
  ]

  -- One operation is done, and its handler called.
  unfoldable pub complete : Frame → Pending io → Client io → Outcome (Client io × Pending io)
  complete frame nothing c = ok (c, nothing)
  complete frame (resolving host port) c =
      let (err, endpoints) = io.async_resolve host port in handle_resolve err endpoints c
  complete frame (connecting e es) c =
      let (err, socket) = io.async_connect e in
      handle_connect frame.before err es (record c { socket = some socket })
  complete frame (announcing info) c = send (frame.later info) c
  complete frame (sending bytes) c = send bytes c

  abbrev pub is_nothing : Pending io → Bool
  is_nothing nothing = true
  is_nothing (resolving host port) = false
  is_nothing (connecting e es) = false
  is_nothing (announcing info) = false
  is_nothing (sending bytes) = false

  -- `service.run()`: it returns when no operation is left.
  unfoldable pub service_run : ℕ → Frame → Pending io → Client io → Outcome (Client io)
  service_run zero frame next c = if is_nothing next then ok c else out_of_fuel
  service_run (suc fuel) frame next c =
      let more = (do (c', next') ← complete frame next c; service_run fuel frame next' c') in
      if is_nothing next then ok c else more

-- `~AsyncTcpClient()`.
unfoldable pub destroy_client : (io : Asio) → Client io → Client io
destroy_client io c = record c { socket = map_option io.close c.socket }

-- How `main` ended: the value returned, what was printed before, and the client if one was made.
pub record ClientEnd (io : Asio) : Type 0 where
  pub exit_code : ℕ
  pub lines : Console
  pub client : Option (Client io)

abbrev usage : (io : Asio) → List LogArg → Outcome (ClientEnd io)
usage io name = ok (record {
  exit_code = 1;
  lines = to_stderr "usage:%s host:port filename.\n" name ∷ [];
  client = none;
})

-- `main`, on the words of the command line, as texts without their NULs. The client is destroyed at
-- the end.
unfoldable pub main : (io : Asio) → ℕ → Frame → World → List (List ℕ) → Outcome (ClientEnd io)
unfolding new_client destroy_client
main io fuel frame w [] = usage io []
main io fuel frame w (name ∷ []) = usage io (string name ∷ [])
main io fuel frame w (name ∷ host ∷ []) = usage io (string name ∷ [])
main io fuel frame w (name ∷ host ∷ path ∷ []) = do
  let (c, next) = new_client io w host path
  c' ← service_run io fuel frame next c
  ok (record { exit_code = 0; lines = []; client = some (destroy_client io c') })
main io fuel frame w (name ∷ host ∷ path ∷ more ∷ others) = usage io (string name ∷ [])
