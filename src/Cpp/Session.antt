-- ===== src/Cpp/Session.antt =====
-- cpp/client.cc and cpp/server.cc together: the client's whole run, and the server's connection at
-- the other end of the client's.
use net_file_transfer.Base.{
  ℕ, Bool, ◌%◌, ◌^◌, ◌+◌, ◌<◌, ◌≤◌, ◌≡◌, ap, ◌∙◌, true, List, [], ◌∷◌, ◌++◌, some, ok, length,
  subst,
}
use net_file_transfer.Memory.{basename}
use net_file_transfer.Memory.Text.{IsText, text_lem}
use net_file_transfer.Memory.BaseText.{basename-IsText}
use net_file_transfer.Memory.Decimal.{decimal}
use net_file_transfer.Stdio.{World}
use net_file_transfer.Asio.{Asio, IsAsio, ErrorCode, success, eof}
use net_file_transfer.Cpp.Header.{max_filename_len}
use net_file_transfer.Cpp.Header.RoundTrip.{
  announced, encode_fileinfo-announced, decode_fileinfo-announced,
}
use net_file_transfer.Cpp.Client
use net_file_transfer.Cpp.Client.{Frame, split_colon}
use net_file_transfer.Cpp.Client.Endpoints.{first_accepting}
use net_file_transfer.Cpp.Client.Run.{main-Sent}
use net_file_transfer.Cpp.Server
use net_file_transfer.Cpp.Server.{Connection}
use net_file_transfer.Cpp.Server.Run.{listening, main-async_tcp_server_port}
use net_file_transfer.Cpp.Server.Rounds.{kept, kept-eof}
use net_file_transfer.Cpp.Server.Accept.{FileReceived, async_tcp_server-FileReceived}

-- The other ends of sockets: what was sent, and then the end of the stream, once it was shut.
pub record IsPeer (io : Asio) (peer : io.Socket → io.Socket) : Type 0 where
  pub incoming_sent : (s : io.Socket) → io.incoming (peer s) ≡ io.sent s
  pub ending_sent : (s : io.Socket) → io.sent_all s ≡ true → io.ending (peer s) ≡ eof

module _ {io : Asio} (v : IsAsio io) (peer : io.Socket → io.Socket) (net : IsPeer io peer) where
  -- The two programs under cpp, over a boost::asio that does what its documentation says and a
  -- network whose other ends receive what a socket sent and then, once it is shut down, the end of
  -- the stream: if the client's file is there, its host has a port and resolves, some endpoint
  -- accepts and takes what is sent, its path is a text whose base name has at most 123 bytes and
  -- can be written at the server, the arrays have their declared size, the server's port can be
  -- bound, and the client's array, though its function has returned, still holds the name when it
  -- is sent, then, with more fuel than the bytes of the file, the endpoints and two for the client
  -- and than these bytes and one for the server, the client's `main` returns 0, and so does the
  -- server's `main`, started on the decimal text of a number below 2^31, whose lower 16 bits are
  -- the port; on the other end of the client's connection it stores the whole file under the base
  -- name, as far as its disk has room, closes it and changes no other file; later connections stay
  -- unaccepted.
  pub main-main :
      (frame : Frame) (fuel server_fuel : ℕ) (w sw : World)
      (name server_host path content host port array : List ℕ) (e : io.Endpoint)
      (es : List io.Endpoint) (a : io.Endpoint) (bound : ℕ → Bool) (what server_name : List ℕ)
      (k n : ℕ) (others : List (ErrorCode × io.Socket))
      → w.file path ≡ some content
      → split_colon server_host ≡ some (host, port)
      → io.async_resolve host port ≡ (success, e ∷ es)
      → first_accepting io e es ≡ some a
      → io.healthy (io.async_connect a).1 ≡ true
      → length frame.before ≡ max_filename_len
      → ((b : List ℕ) → frame.later b ≡ b)
      → length (basename path) ≤ 123
      → IsText path
      → sw.writable (basename path) ≡ true
      → length array ≡ max_filename_len
      → n < 10 ^ k
      → n < 2 ^ 31
      → bound (n % 2 ^ 16) ≡ true
      → length es + length content + 3 < fuel
      → length content + 1 < server_fuel
      → (c : Client.Client io) × (socket : io.Socket) × (conn : Connection io) × (Client.main io
            fuel frame w
            (name ∷ server_host ∷ path ∷ [])
          ≡ ok (record { exit_code = 0; lines = []; client = some c }))
        × (c.socket ≡ some socket)
        × (Server.main io bound what server_fuel array sw
              ((success, peer socket) ∷ others)
              (server_name ∷ decimal k n ∷ [])
            ≡ ok (record {
              exit_code = 0;
              lines = listening (n % 2 ^ 16);
              served = some (record { connection = some conn; unaccepted = others });
            }))
        × FileReceived io sw (basename path) content conn
  main-main frame fuel server_fuel w sw name server_host path content host port array e es a bound
        what server_name k n others there split found first healthy before kept_array fits is_text
        can full digits small bindable enough server_enough =
      let (rest, encoded, size) =
        encode_fileinfo-announced frame.before (basename path) before fits in
      let info = announced (decimal 20 (length (basename path))) (basename path) rest in
      let (c, ran, d) =
        main-Sent v frame fuel w name server_host path content host port info e es a there split
          found first healthy encoded enough in
      let here : io.incoming (peer d.socket) ≡ info ++ content =
        net.incoming_sent d.socket ∙ d.sent ∙ ap (λ b. b ++ content) (kept_array info) in
      let (conn, served, received) =
        async_tcp_server-FileReceived v server_fuel array sw (peer d.socket) others info content
          (basename path) (basename path) here size full
          (decode_fileinfo-announced (basename path) rest fits size)
          (text_lem (basename path) [] (basename-IsText path is_text)) can server_enough in
      let all : kept (io.ending (peer d.socket)) content ≡ content =
        ap (λ end. kept end content) (net.ending_sent d.socket d.ended) ∙ kept-eof content in
      (
        c,
        d.socket,
        conn,
        ran,
        d.at_socket,
        main-async_tcp_server_port io bound what server_fuel array sw
            ((success, peer d.socket) ∷ others) server_name k n digits small bindable served,
        subst (λ b. FileReceived io sw (basename path) b conn) all received,
      )
