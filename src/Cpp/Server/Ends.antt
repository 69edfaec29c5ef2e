-- ===== src/Cpp/Server/Ends.antt =====
-- The server's run always ends: every round takes a buffer from the stream, or is the last.
use net_file_transfer.Base.{
  ℕ, zero, suc, sym, ◌+◌, ◌∙◌, ◌<◌, ◌≤◌, ◌≡◌, ◌≢◌, refl, ap, Bool, false, List, [], ◌∷◌, ◌++◌,
  Option, some, none, out_of_fuel, Ends, Ends-bind, Ends-out_of_fuel, Whatever, length, length-drop,
  ltb, ltb→lt, not_ltb→le, Bool-cases, inl, inr, arith,
}
use net_file_transfer.Memory.{text}
use net_file_transfer.Stdio.{World, bufsiz, fopen_wb}
use net_file_transfer.Asio.{Asio, IsAsio, ErrorCode, success, eof, failure}
use net_file_transfer.Config.{atoi, to_short}
use net_file_transfer.Cpp.Header.{max_filename_len, decode_fileinfo}
use net_file_transfer.Cpp.Header.Ends.{decode_fileinfo-Ends, text-Ends, atoi-Ends}
use net_file_transfer.Cpp.Server.{
  File, Connection, Pending, nothing, read_request, write_file, new_connection, start, receive_into,
  open_file, handle_error, handle_read_request, write_received, finish_file, write_more,
  handle_write_file, complete, is_nothing, service_run, handle_accept, async_tcp_server, serve_port,
  main,
}

module _ (io : Asio) where
  -- A bound on the rounds to come.
  abbrev rounds : Pending → Connection io → ℕ
  rounds nothing c = 0
  rounds read_request c = length (io.incoming c.socket) + 2
  rounds write_file c = length (io.incoming c.socket) + 1

  -- Fewer rounds than `k` are left, and the buffer has its size.
  abbrev Fewer : ℕ → Connection io × Pending → Type 0
  Fewer k r = (rounds r.1 r.0 < k) × (r.0.bufsize ≡ bufsiz)

  write_more-Fewer :
      (k : ℕ) (bytes : List ℕ) (fp : File) (c : Connection io)
      → length (io.incoming c.socket) + 1 < k
      → c.bufsize ≡ bufsiz
      → Fewer k (write_more io bytes fp c, write_file)
  unfolding write_more write_received
  write_more-Fewer k bytes fp c less buffer = elim (Bool-cases (ltb 0 (length bytes))) [
    | inl some' ↦ rw some' (less, buffer)
    | inr none' ↦ rw none' (less, buffer)
  ]

  handle_write_file-Ends :
      (k : ℕ) (err : ErrorCode) (bytes : List ℕ) (c : Connection io) (fp : Option File)
      → (err ≡ success → length (io.incoming c.socket) + 1 < k)
      → 0 < k
      → c.bufsize ≡ bufsiz
      → Ends (Fewer k) (handle_write_file io err bytes (record c { fp = fp }))
  unfolding handle_write_file finish_file write_received handle_error
  handle_write_file-Ends k err bytes c none less pos buffer = tt
  handle_write_file-Ends k success bytes c (some fp) less pos buffer =
      write_more-Fewer k bytes fp _ (less refl) buffer
  handle_write_file-Ends k eof bytes c (some fp) less pos buffer = (pos, buffer)
  handle_write_file-Ends k (failure n) bytes c (some fp) less pos buffer = (pos, buffer)

  receive_into-Fewer :
      (k : ℕ) (name : List ℕ) (c : Connection io) (w : Option World)
      → length (io.incoming c.socket) + 1 < k
      → c.bufsize ≡ bufsiz
      → Fewer k (receive_into io name c w)
  unfolding receive_into
  receive_into-Fewer k name c none less buffer = (omega arith, buffer)
  receive_into-Fewer k name c (some w) less buffer = (less, buffer)

  handle_read_request-Ends :
      (k : ℕ) (err : ErrorCode) (c : Connection io)
      → (err ≡ success → length (io.incoming c.socket) + 1 < k)
      → 0 < k
      → c.bufsize ≡ bufsiz
      → Ends (Fewer k) (handle_read_request io err c)
  unfolding handle_read_request handle_error open_file
  handle_read_request-Ends k success c less pos buffer =
      Ends-bind Whatever (Fewer k) (decode_fileinfo c.info) _ (decode_fileinfo-Ends c.info)
        (λ filename _.
          Ends-bind Whatever (Fewer k) (text (filename ++ 0 ∷ [])) _
            (text-Ends (filename ++ 0 ∷ []))
            (λ name _. receive_into-Fewer k name _ (fopen_wb c.world name) (less refl) buffer))
  handle_read_request-Ends k eof c less pos buffer = (pos, buffer)
  handle_read_request-Ends k (failure n) c less pos buffer = (pos, buffer)

module _ {io : Asio} (v : IsAsio io) where
  -- A read that succeeds takes from the stream.
  read_less :
      (s : io.Socket) (n : ℕ)
      → 0 < n
      → (io.async_read s n).0 ≡ success
      → length (io.incoming (io.async_read s n).2) < length (io.incoming s)
  read_less s n pos e = elim (Bool-cases (ltb (length (io.incoming s)) n)) [
    | inl short ↦
        let (ended, _) = v.read_rest s n (ltb→lt _ _ short) in
        absurd (v.ending_ne_success s (sym ended ∙ e))
    | inr full ↦
        let room = not_ltb→le (length (io.incoming s)) n full in
        let (_, _, left, _) = v.read_full s n room in
        omega (arith, ap length left, length-drop n (io.incoming s))
  ]

  complete-Ends :
      (next : Pending) (c : Connection io)
      → is_nothing io next ≡ false
      → c.bufsize ≡ bufsiz
      → Ends (Fewer io (rounds io next c)) (complete io next c)
  unfolding complete
  complete-Ends nothing c more buffer = cc
  complete-Ends read_request c more buffer =
      handle_read_request-Ends io _ _ _
        (λ e. omega (arith, read_less c.socket max_filename_len (omega arith) e)) (omega arith)
        buffer
  complete-Ends write_file c more buffer =
      handle_write_file-Ends io _ _ _ (record c { socket = (io.async_read c.socket c.bufsize).2 })
        c.fp (λ e. omega (arith, read_less c.socket c.bufsize (omega arith) e)) (omega arith) buffer

  rounds-pos :
      (next : Pending) (c : Connection io) → is_nothing io next ≡ false → 0 < rounds io next c
  rounds-pos nothing c h = cc
  rounds-pos read_request c h = omega arith
  rounds-pos write_file c h = omega arith

  service_run-Ends :
      (fuel : ℕ) (next : Pending) (c : Connection io)
      → rounds io next c ≤ fuel
      → c.bufsize ≡ bufsiz
      → Ends Whatever (service_run io fuel next c)
  unfolding service_run
  service_run-Ends zero next c enough buffer = elim (Bool-cases (is_nothing io next)) [
    | inl done ↦ rw done tt
    | inr more ↦ absurd (omega (arith, rounds-pos next c more))
  ]
  service_run-Ends (suc fuel) next c enough buffer = elim (Bool-cases (is_nothing io next)) [
    | inl done ↦ rw done tt
    | inr more ↦ rw more (
        Ends-bind (Fewer io (rounds io next c)) Whatever (complete io next c) _
          (complete-Ends next c more buffer)
          (λ r fewer. service_run-Ends fuel r.1 r.0 (omega arith) fewer.1))
  ]

  -- There is a first peer, and it has so many bytes to send at most.
  abbrev pub AtMost : ℕ → List (ErrorCode × io.Socket) → Type 0
  AtMost n [] = ⊥
  AtMost n ((err, socket) ∷ others) = length (io.incoming socket) ≤ n

  async_tcp_server-Ends :
      (fuel n : ℕ) (info : List ℕ) (w : World) (peers : List (ErrorCode × io.Socket))
      → AtMost n peers
      → n + 2 ≤ fuel
      → Ends Whatever (async_tcp_server io fuel info w peers)
  unfolding async_tcp_server handle_accept start new_connection
  async_tcp_server-Ends fuel n info w [] small enough = absurd small
  async_tcp_server-Ends fuel n info w ((success, socket) ∷ others) small enough =
      Ends-bind Whatever Whatever (service_run io fuel read_request _) _
        (service_run-Ends fuel read_request (start io (new_connection io info socket w)).0
          (omega arith) refl)
        (λ _ _. tt)
  async_tcp_server-Ends fuel n info w ((eof, socket) ∷ others) small enough =
      Ends-bind Whatever Whatever (service_run io fuel nothing _) _
        (service_run-Ends fuel nothing (new_connection io info socket w) (omega arith) refl)
        (λ _ _. tt)
  async_tcp_server-Ends fuel n info w ((failure e, socket) ∷ others) small enough =
      Ends-bind Whatever Whatever (service_run io fuel nothing _) _
        (service_run-Ends fuel nothing (new_connection io info socket w) (omega arith) refl)
        (λ _ _. tt)

  serve_port-Ends :
      (bound : ℕ → Bool) (what : List ℕ) (fuel n : ℕ) (info : List ℕ) (w : World)
      (peers : List (ErrorCode × io.Socket)) (argument : List ℕ)
      → AtMost n peers
      → n + 2 ≤ fuel
      → Ends Whatever (serve_port io bound what fuel info w peers argument)
  unfolding serve_port
  serve_port-Ends bound what fuel n info w peers argument small enough =
      Ends-bind Whatever Whatever (atoi (argument ++ 0 ∷ [])) _ (atoi-Ends (argument ++ 0 ∷ []))
        (λ port _. elim (Bool-cases (bound (to_short port))) [
          | inl can ↦ rw can (
              Ends-bind Whatever Whatever (async_tcp_server io fuel info w peers) _
                (async_tcp_server-Ends fuel n info w peers small enough) (λ _ _. tt))
          | inr cannot ↦ rw cannot tt
        ])

  -- Over a boost::asio that does what its documentation says, if there is a first connection and it brings at
  -- most n bytes, a fuel of n + 2 is enough for the server's `main`: whatever its command line,
  -- these bytes and the disk, it does not run out.
  pub main_ends_served :
      (bound : ℕ → Bool) (what : List ℕ) (fuel n : ℕ) (info : List ℕ) (w : World)
      (peers : List (ErrorCode × io.Socket)) (words : List (List ℕ))
      → AtMost n peers
      → n + 2 ≤ fuel
      → main io bound what fuel info w peers words ≢ out_of_fuel
  unfolding main
  main_ends_served bound what fuel n info w peers words small enough =
      Ends-out_of_fuel Whatever (main io bound what fuel info w peers words) (each words)
    where
      each : (words' : List (List ℕ)) → Ends Whatever (main io bound what fuel info w peers words')
      each [] = tt
      each (name ∷ []) = tt
      each (name ∷ argument ∷ []) =
          serve_port-Ends bound what fuel n info w peers argument small enough
      each (name ∷ argument ∷ more ∷ others) = tt
