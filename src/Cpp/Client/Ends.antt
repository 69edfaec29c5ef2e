-- ===== src/Cpp/Client/Ends.antt =====
-- The client's run always ends: every round takes a byte, tries an endpoint, or is the last.
use net_file_transfer.Base.{
  ℕ, zero, suc, ◌+◌, ◌<◌, ◌≤◌, ◌≡◌, ◌≢◌, false, List, [], ◌∷◌, Option, some, none, out_of_fuel,
  Ends, Ends-bind, Ends-map, Ends-out_of_fuel, Whatever, length, take, length-take, length-drop,
  ltb, ltb→lt, Bool-cases, Option-cases, inl, inr, arith,
}
use net_file_transfer.Memory.{basename}
use net_file_transfer.Stdio.{World, bufsiz, fread}
use net_file_transfer.Asio.{Asio, ErrorCode, success, eof, failure}
use net_file_transfer.Cpp.Header.{encode_fileinfo}
use net_file_transfer.Cpp.Header.Ends.{encode_fileinfo-Ends}
use net_file_transfer.Cpp.Client.{
  Pending, nothing, resolving, connecting, announcing, sending, Frame, Client, split_colon,
  new_client, resolve, resolve_opened, connect_first, handle_resolve, connect_next, handle_connect,
  announce, send_more, handle_read_file, send, complete, is_nothing, service_run, main,
}

-- What is left of an open file.
abbrev pub unread : Option (List ℕ) → ℕ
unread none = 0
unread (some rest) = length rest

module _ (io : Asio) where
  -- A bound on the rounds to come.
  abbrev rounds : Pending io → Client io → ℕ
  rounds nothing c = 0
  rounds (resolving host port) c = length (io.async_resolve host port).1 + unread c.fp + 3
  rounds (connecting e es) c = length es + unread c.fp + 3
  rounds (announcing info) c = unread c.fp + 2
  rounds (sending bytes) c = unread c.fp + 1

  -- Fewer rounds than `k` are left.
  abbrev Fewer : ℕ → Client io × Pending io → Type 0
  Fewer k r = rounds r.1 r.0 < k

  send_more-Fewer :
      (rest : List ℕ) (socket : io.Socket) (c : Client io)
      → Fewer (length rest + 1) (send_more io rest socket c)
  unfolding send_more fread
  send_more-Fewer rest socket c = elim (Bool-cases (ltb 0 (length (take bufsiz rest)))) [
    | inl some' ↦ rw some' (
        omega (
          arith,
          ltb→lt 0 (length (take bufsiz rest)) some',
          length-take bufsiz rest,
          length-drop bufsiz rest,
        ))
    | inr none' ↦ rw none' (omega arith)
  ]

  handle_read_file-Ends :
      (err : ErrorCode) (socket : io.Socket) (c : Client io) (fp : Option (List ℕ))
      → Ends (Fewer (unread fp + 1)) (handle_read_file io err socket (record c { fp = fp }))
  unfolding handle_read_file
  handle_read_file-Ends success socket c none = tt
  handle_read_file-Ends success socket c (some rest) =
      send_more-Fewer rest socket (record c { fp = some rest; socket = some socket })
  handle_read_file-Ends eof socket c fp = omega arith
  handle_read_file-Ends (failure n) socket c fp = omega arith

  send-Ends :
      (bytes : List ℕ) (c : Client io) (socket : Option io.Socket)
      → Ends (Fewer (unread c.fp + 1)) (send io bytes (record c { socket = socket }))
  unfolding send
  send-Ends bytes c none = tt
  send-Ends bytes c (some socket) =
      let (err, socket') = io.async_write socket bytes in
      handle_read_file-Ends err socket' (record c { socket = some socket' }) c.fp

  connect_next-Fewer :
      (err : ErrorCode) (es : List io.Endpoint) (c : Client io)
      → Fewer (length es + unread c.fp + 3) (connect_next io err es c)
  unfolding connect_next
  connect_next-Fewer err [] c = omega arith
  connect_next-Fewer err (e ∷ es) c = omega arith

  handle_connect-Ends :
      (buf : List ℕ) (err : ErrorCode) (es : List io.Endpoint) (c : Client io)
      → Ends (Fewer (length es + unread c.fp + 3)) (handle_connect io buf err es c)
  unfolding handle_connect announce
  handle_connect-Ends buf success es c =
      Ends-bind Whatever (Fewer (length es + unread c.fp + 3))
        (encode_fileinfo buf (basename c.filename)) _
        (encode_fileinfo-Ends buf (basename c.filename)) (λ info _. omega arith)
  handle_connect-Ends buf eof es c = connect_next-Fewer eof es c
  handle_connect-Ends buf (failure n) es c = connect_next-Fewer (failure n) es c

  handle_resolve-Ends :
      (err : ErrorCode) (es : List io.Endpoint) (c : Client io)
      → Ends (Fewer (length es + unread c.fp + 3)) (handle_resolve io err es c)
  unfolding handle_resolve connect_first
  handle_resolve-Ends success [] c = tt
  handle_resolve-Ends success (e ∷ es) c = omega arith
  handle_resolve-Ends eof es c = omega arith
  handle_resolve-Ends (failure n) es c = omega arith

  -- A round leaves fewer rounds.
  complete-Ends :
      (frame : Frame) (next : Pending io) (c : Client io)
      → 0 < rounds next c
      → Ends (Fewer (rounds next c)) (complete io frame next c)
  unfolding complete
  complete-Ends frame nothing c more = absurd (omega arith)
  complete-Ends frame (resolving host port) c more =
      let (err, es) = io.async_resolve host port in handle_resolve-Ends err es c
  complete-Ends frame (connecting e es) c more =
      let (err, socket) = io.async_connect e in
      handle_connect-Ends frame.before err es (record c { socket = some socket })
  complete-Ends frame (announcing info) c more =
      Ends-map (Fewer (unread c.fp + 1)) (Fewer (unread c.fp + 2)) (send io (frame.later info) c)
        (λ r h. omega arith) (send-Ends (frame.later info) c c.socket)
  complete-Ends frame (sending bytes) c more = send-Ends bytes c c.socket

  rounds-pos : (next : Pending io) (c : Client io) → is_nothing io next ≡ false → 0 < rounds next c
  rounds-pos nothing c h = cc
  rounds-pos (resolving host port) c h = omega arith
  rounds-pos (connecting e es) c h = omega arith
  rounds-pos (announcing info) c h = omega arith
  rounds-pos (sending bytes) c h = omega arith

  service_run-Ends :
      (fuel : ℕ) (frame : Frame) (next : Pending io) (c : Client io)
      → rounds next c ≤ fuel
      → Ends Whatever (service_run io fuel frame next c)
  unfolding service_run
  service_run-Ends zero frame next c enough = elim (Bool-cases (is_nothing io next)) [
    | inl done ↦ rw done tt
    | inr more ↦ absurd (omega (arith, rounds-pos next c more))
  ]
  service_run-Ends (suc fuel) frame next c enough = elim (Bool-cases (is_nothing io next)) [
    | inl done ↦ rw done tt
    | inr more ↦ rw more (
        Ends-bind (Fewer (rounds next c)) Whatever (complete io frame next c) _
          (complete-Ends frame next c (rounds-pos next c more))
          (λ r fewer. service_run-Ends fuel frame r.1 r.0 (omega arith)))
  ]

  -- What the constructor starts.
  resolve-rounds :
      (n : ℕ)
      → ((host port : List ℕ) → length (io.async_resolve host port).1 ≤ n)
      → (split : Option (List ℕ × List ℕ)) (c : Client io)
      → Fewer (n + unread c.fp + 4) (resolve io split c)
  unfolding resolve
  resolve-rounds n bound none c = omega arith
  resolve-rounds n bound (some (host, port)) c = omega (arith, bound host port)

  resolve_opened-rounds :
      (n k : ℕ)
      → ((host port : List ℕ) → length (io.async_resolve host port).1 ≤ n)
      → (opened : Option (List ℕ)) (server_host : List ℕ) (c : Client io) → unread opened ≤ k
      → Fewer (n + k + 4) (resolve_opened io opened server_host c)
  unfolding resolve_opened
  resolve_opened-rounds n k bound none server_host c small = omega arith
  resolve_opened-rounds n k bound (some content) server_host c small =
      omega
        (arith, resolve-rounds n bound (split_colon server_host) (record c { fp = some content }))

  -- Over any boost::asio, if no resolution gives more than n endpoints and no file has more than k
  -- bytes, a fuel of n + k + 3 is enough for the client's `main`: whatever its command line, the
  -- peers and the array do, it does not run out.
  pub main_ends :
      (fuel n k : ℕ) (frame : Frame) (w : World) (words : List (List ℕ))
      → ((host port : List ℕ) → length (io.async_resolve host port).1 ≤ n)
      → ((path content : List ℕ) → w.file path ≡ some content → length content ≤ k)
      → n + k + 3 ≤ fuel
      → main io fuel frame w words ≢ out_of_fuel
  unfolding main new_client
  main_ends fuel n k frame w words endpoints sizes enough =
      Ends-out_of_fuel Whatever (main io fuel frame w words) (each words)
    where
      opened_size : (path : List ℕ) → unread (w.file path) ≤ k
      opened_size path = elim (Option-cases (w.file path)) [
        | inl absent ↦ rw absent (omega arith)
        | inr (content, there) ↦ rw there (sizes path content there)
      ]

      each : (words' : List (List ℕ)) → Ends Whatever (main io fuel frame w words')
      each [] = tt
      each (name ∷ []) = tt
      each (name ∷ host ∷ []) = tt
      each (name ∷ host ∷ path ∷ []) =
          let (c, next) = new_client io w host path in
          let few : rounds next c < n + k + 4 =
            resolve_opened-rounds n k endpoints (w.file path) host _ (opened_size path) in
          Ends-bind Whatever Whatever (service_run io fuel frame next c) _
            (service_run-Ends fuel frame next c (omega arith)) (λ _ _. tt)
      each (name ∷ host ∷ path ∷ more ∷ others) = tt
