-- ===== src/Cpp/Server/Safe.antt =====
-- `AsyncTcpServer` and `main` in cpp/server.cc against any connection.
use net_file_transfer.Base.{
  ℕ, ◌+◌, ◌≤◌, ◌≡◌, refl, Bool, true, false, List, [], ◌∷◌, ◌++◌, some, none, ok, Safe, Safe-bind,
  Safe-Ends, length, Bool-cases, inl, inr,
}
use net_file_transfer.Memory.{text}
use net_file_transfer.Stdio.{World}
use net_file_transfer.Asio.{Asio, IsAsio, ErrorCode, success, eof, failure}
use net_file_transfer.Config.{CInt, atoi, to_short}
use net_file_transfer.Cpp.Header.{max_filename_len}
use net_file_transfer.Cpp.Server.Ends.{main_ends_served}
use net_file_transfer.Cpp.Server.{
  Connection, nothing, read_request, new_connection, start, service_run, handle_accept,
  async_tcp_server, serve_port, Served, ServerEnd, main,
}
use net_file_transfer.Cpp.Server.Handlers.{Announces, Over, service_run-Safe}

module _ {io : Asio} (v : IsAsio io) (w : World) (filename name : List ℕ)
    (named : text (filename ++ 0 ∷ []) ≡ ok name) where
  -- One connection was served, and the others are left.
  abbrev pub IsServed : List (ErrorCode × io.Socket) → Served io → Type 0
  IsServed others s =
      (c : Connection io) × (s.connection ≡ some c)
      × (s.unaccepted ≡ others)
      × Over v w filename name named c

  -- The first connection, if it is accepted, is served to its end, whatever it sends.
  async_tcp_server-Safe :
      (fuel : ℕ) (info : List ℕ) (err : ErrorCode) (socket : io.Socket)
      (others : List (ErrorCode × io.Socket))
      → length info ≡ max_filename_len
      → Announces v filename socket
      → Safe (IsServed others) (async_tcp_server io fuel info w ((err, socket) ∷ others))
  unfolding async_tcp_server handle_accept new_connection start
  async_tcp_server-Safe fuel info success socket others size announces =
      Safe-bind (Over v w filename name named) (IsServed others)
        (service_run io fuel read_request _) _
        (service_run-Safe v w filename name named fuel read_request
          (start io (new_connection io info socket w)).0
          ((λ other ne. refl), refl, size, announces))
        (λ c over. (c, refl, refl, over))
  async_tcp_server-Safe fuel info eof socket others size announces =
      Safe-bind (Over v w filename name named) (IsServed others) (service_run io fuel nothing _) _
        (service_run-Safe v w filename name named fuel nothing (new_connection io info socket w)
          ((λ other ne. refl), refl))
        (λ c over. (c, refl, refl, over))
  async_tcp_server-Safe fuel info (failure n) socket others size announces =
      Safe-bind (Over v w filename name named) (IsServed others) (service_run io fuel nothing _) _
        (service_run-Safe v w filename name named fuel nothing (new_connection io info socket w)
          ((λ other ne. refl), refl))
        (λ c over. (c, refl, refl, over))

  -- The value that `main` returns, and what was served.
  abbrev pub Ended : Bool → List (ErrorCode × io.Socket) → ServerEnd io → Type 0
  Ended true others end =
      (end.exit_code ≡ 0) × (s : Served io) × (end.served ≡ some s) × IsServed others s
  Ended false others end = (end.exit_code ≡ 0) × (end.served ≡ none)

  serve_port-Safe :
      (bound : ℕ → Bool) (what : List ℕ) (fuel : ℕ) (info : List ℕ) (err : ErrorCode)
      (socket : io.Socket) (others : List (ErrorCode × io.Socket)) (argument : List ℕ) (port : CInt)
      → atoi (argument ++ 0 ∷ []) ≡ ok port
      → length info ≡ max_filename_len
      → Announces v filename socket
      → Safe
          (Ended (bound (to_short port)) others)
          (serve_port io bound what fuel info w ((err, socket) ∷ others) argument)
  unfolding serve_port
  serve_port-Safe bound what fuel info err socket others argument port number size announces =
      elim (Bool-cases (bound (to_short port))) [
        | inl can ↦
            rw (number, can)
              (Safe-bind (IsServed others) (Ended true others)
                (async_tcp_server io fuel info w ((err, socket) ∷ others)) _
                (async_tcp_server-Safe fuel info err socket others size announces)
                (λ s served. (refl, s, refl, served)))
        | inr cannot ↦ rw (number, cannot) (refl, refl)
      ]

  -- Over a boost::asio that does what its documentation says, with the text of an `int` as the
  -- port, an array of the declared size, and a first connection, accepted or not, that brings at
  -- most n bytes and, if these fill the array, a name that `decode_fileinfo` finds in it: with a
  -- fuel of n + 2 the server's `main` returns 0, whatever else the connection brings, however it
  -- ends and whether the file can be opened or not. If the port can be bound, that connection
  -- alone has been served, no file is left open and none has changed but the one that was
  -- announced; if not, none has been served.
  pub main_returns_served :
      (bound : ℕ → Bool) (what : List ℕ) (fuel n : ℕ) (info : List ℕ) (err : ErrorCode)
      (socket : io.Socket) (others : List (ErrorCode × io.Socket)) (program argument : List ℕ)
      (port : CInt)
      → atoi (argument ++ 0 ∷ []) ≡ ok port
      → length info ≡ max_filename_len
      → Announces v filename socket
      → length (io.incoming socket) ≤ n
      → n + 2 ≤ fuel
      → (end : ServerEnd io) × (main io bound what fuel info w
            ((err, socket) ∷ others)
            (program ∷ argument ∷ [])
          ≡ ok end)
        × Ended (bound (to_short port)) others end
  unfolding main
  main_returns_served bound what fuel n info err socket others program argument port number size
        announces small enough =
      let peers = (err, socket) ∷ others in
      let words = program ∷ argument ∷ [] in
      Safe-Ends (Ended (bound (to_short port)) others) (main io bound what fuel info w peers words)
        (serve_port-Safe bound what fuel info err socket others argument port number size announces)
        (main_ends_served v bound what fuel n info w peers words small enough)
