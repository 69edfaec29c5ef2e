-- ===== src/Cpp/Client/Safe.antt =====
-- The client against any network: no handler is called in a state that it cannot deal with.
use net_file_transfer.Base.{
  ℕ, zero, suc, ◌+◌, ◌≤◌, ◌≡◌, refl, List, [], ◌∷◌, Option, some, none, ok, Safe, Safe-bind,
  Safe-Ends, Whatever, arith, length, ltb, take, Bool-cases, inl, inr,
}
use net_file_transfer.Memory.{basename}
use net_file_transfer.Stdio.{World, bufsiz, fread}
use net_file_transfer.Asio.{Asio, ErrorCode, success, eof, failure}
use net_file_transfer.Cpp.Header.{max_filename_len}
use net_file_transfer.Cpp.Header.RoundTrip.{encode_fileinfo-announced}
use net_file_transfer.Cpp.Client.Ends.{main_ends}
use net_file_transfer.Cpp.Client.{
  Pending, nothing, resolving, connecting, announcing, sending, Frame, Client, split_colon,
  new_client, resolve, resolve_opened, connect_first, handle_resolve, connect_next, handle_connect,
  announce, send_more, handle_read_file, send, complete, is_nothing, service_run, ClientEnd, main,
}

abbrev pub IsThere : {A : Type 0} → Option A → Type 0
IsThere none = ⊥
IsThere (some a) = Unit {0}

-- A name that the array has room for.
abbrev pub Fits : List ℕ → Type 0
Fits path = length (basename path) ≤ 123

abbrev pub PathFits : List (List ℕ) → Type 0
PathFits [] = Unit {0}
PathFits (name ∷ []) = Unit {0}
PathFits (name ∷ host ∷ []) = Unit {0}
PathFits (name ∷ host ∷ path ∷ []) = Fits path
PathFits (name ∷ host ∷ path ∷ more ∷ others) = Unit {0}

-- The value that `main` returns, which depends on the number of the words alone.
abbrev pub exit_for : List (List ℕ) → ℕ
exit_for [] = 1
exit_for (name ∷ []) = 1
exit_for (name ∷ host ∷ []) = 1
exit_for (name ∷ host ∷ path ∷ []) = 0
exit_for (name ∷ host ∷ path ∷ more ∷ others) = 1

module _ (io : Asio) where
  -- A resolution that succeeds gives an endpoint.
  abbrev pub Resolves : Type 0
  Resolves =
      (host port : List ℕ)
      → (io.async_resolve host port).0 ≡ success
      → 1 ≤ length (io.async_resolve host port).1

  -- What the operation under way relies on.
  abbrev Holds : Client io → Pending io → Type 0
  Holds c nothing = Unit {0}
  Holds c (resolving host port) = IsThere c.fp × Fits c.filename
  Holds c (connecting e es) = IsThere c.fp × Fits c.filename
  Holds c (announcing info) = IsThere c.fp × IsThere c.socket
  Holds c (sending bytes) = IsThere c.fp × IsThere c.socket

  abbrev HoldsOf : Client io × Pending io → Type 0
  HoldsOf r = Holds r.0 r.1

  send_more-Holds :
      (rest : List ℕ) (socket : io.Socket) (c : Client io)
      → IsThere c.socket
      → HoldsOf (send_more io rest socket c)
  unfolding send_more fread
  send_more-Holds rest socket c there = elim (Bool-cases (ltb 0 (length (take bufsiz rest)))) [
    | inl some' ↦ rw some' (tt, there)
    | inr none' ↦ rw none' tt
  ]

  handle_read_file-Safe :
      (err : ErrorCode) (socket : io.Socket) (c : Client io) (fp : Option (List ℕ))
      → IsThere fp
      → Safe HoldsOf (handle_read_file io err socket (record c { fp = fp }))
  unfolding handle_read_file
  handle_read_file-Safe err socket c none there = absurd there
  handle_read_file-Safe success socket c (some rest) there =
      send_more-Holds rest socket (record c { fp = some rest; socket = some socket }) tt
  handle_read_file-Safe eof socket c (some rest) there = tt
  handle_read_file-Safe (failure n) socket c (some rest) there = tt

  send-Safe :
      (bytes : List ℕ) (c : Client io) (socket : Option io.Socket)
      → IsThere c.fp
      → IsThere socket
      → Safe HoldsOf (send io bytes (record c { socket = socket }))
  unfolding send
  send-Safe bytes c none there connected = absurd connected
  send-Safe bytes c (some socket) there connected =
      let (err, socket') = io.async_write socket bytes in
      handle_read_file-Safe err socket' (record c { socket = some socket' }) c.fp there

  connect_next-Holds :
      (err : ErrorCode) (es : List io.Endpoint) (c : Client io)
      → IsThere c.fp
      → Fits c.filename
      → HoldsOf (connect_next io err es c)
  unfolding connect_next
  connect_next-Holds err [] c there fits = tt
  connect_next-Holds err (e ∷ es) c there fits = (there, fits)

  handle_connect-Safe :
      (buf : List ℕ) (err : ErrorCode) (es : List io.Endpoint) (c : Client io)
      → length buf ≡ max_filename_len
      → IsThere c.fp
      → IsThere c.socket
      → Fits c.filename
      → Safe HoldsOf (handle_connect io buf err es c)
  unfolding handle_connect announce
  handle_connect-Safe buf success es c size there connected fits =
      let (_, written, _) = encode_fileinfo-announced buf (basename c.filename) size fits in
      rw written (there, connected)
  handle_connect-Safe buf eof es c size there connected fits =
      connect_next-Holds eof es c there fits
  handle_connect-Safe buf (failure n) es c size there connected fits =
      connect_next-Holds (failure n) es c there fits

  handle_resolve-Safe :
      (err : ErrorCode) (es : List io.Endpoint) (c : Client io)
      → (err ≡ success → 1 ≤ length es)
      → IsThere c.fp
      → Fits c.filename
      → Safe HoldsOf (handle_resolve io err es c)
  unfolding handle_resolve connect_first
  handle_resolve-Safe success [] c some_left there fits = absurd (omega (arith, some_left refl))
  handle_resolve-Safe success (e ∷ es) c some_left there fits = (there, fits)
  handle_resolve-Safe eof es c some_left there fits = tt
  handle_resolve-Safe (failure n) es c some_left there fits = tt

  module _ (resolves : Resolves) (frame : Frame)
      (size : length frame.before ≡ max_filename_len) where
    complete-Safe :
        (next : Pending io) (c : Client io) → Holds c next → Safe HoldsOf (complete io frame next c)
    unfolding complete
    complete-Safe nothing c h = tt
    complete-Safe (resolving host port) c (there, fits) =
        handle_resolve-Safe _ _ c (resolves host port) there fits
    complete-Safe (connecting e es) c (there, fits) =
        let (err, socket) = io.async_connect e in
        handle_connect-Safe frame.before err es (record c { socket = some socket }) size there tt
          fits
    complete-Safe (announcing info) c (there, connected) =
        send-Safe (frame.later info) c c.socket there connected
    complete-Safe (sending bytes) c (there, connected) = send-Safe bytes c c.socket there connected

    service_run-Safe :
        (fuel : ℕ) (next : Pending io) (c : Client io)
        → Holds c next
        → Safe Whatever (service_run io fuel frame next c)
    unfolding service_run
    service_run-Safe zero next c h = elim (Bool-cases (is_nothing io next)) [
      | inl done ↦ rw done tt
      | inr more ↦ rw more tt
    ]
    service_run-Safe (suc fuel) next c h = elim (Bool-cases (is_nothing io next)) [
      | inl done ↦ rw done tt
      | inr more ↦ rw more (
          Safe-bind HoldsOf Whatever (complete io frame next c) _ (complete-Safe next c h)
            (λ r holds. service_run-Safe fuel r.1 r.0 holds))
    ]

    resolve-Holds :
        (split : Option (List ℕ × List ℕ)) (c : Client io)
        → IsThere c.fp
        → Fits c.filename
        → HoldsOf (resolve io split c)
    unfolding resolve
    resolve-Holds none c there fits = tt
    resolve-Holds (some (host, port)) c there fits = (there, fits)

    resolve_opened-Holds :
        (opened : Option (List ℕ)) (server_host : List ℕ) (c : Client io)
        → Fits c.filename
        → HoldsOf (resolve_opened io opened server_host c)
    unfolding resolve_opened
    resolve_opened-Holds none server_host c fits = tt
    resolve_opened-Holds (some content) server_host c fits =
        resolve-Holds (split_colon server_host) (record c { fp = some content }) tt fits

    abbrev Exits : List (List ℕ) → ClientEnd io → Type 0
    Exits words end = end.exit_code ≡ exit_for words

    main-Safe :
        (fuel : ℕ) (w : World) (words : List (List ℕ))
        → PathFits words
        → Safe (Exits words) (main io fuel frame w words)
    unfolding main new_client
    main-Safe fuel w [] fits = refl
    main-Safe fuel w (name ∷ []) fits = refl
    main-Safe fuel w (name ∷ host ∷ []) fits = refl
    main-Safe fuel w (name ∷ host ∷ path ∷ []) fits =
        let (c, next) = new_client io w host path in
        Safe-bind Whatever (Exits (name ∷ host ∷ path ∷ [])) (service_run io fuel frame next c) _
          (service_run-Safe fuel next c (resolve_opened-Holds (w.file path) host _ fits))
          (λ _ _. refl)
    main-Safe fuel w (name ∷ host ∷ path ∷ more ∷ others) fits = refl

    -- Over any boost::asio whose resolutions, when they succeed, give an endpoint, with at most n
    -- endpoints, files of at most k bytes, a fuel of n + k + 3, an array of the declared size and
    -- a path, if the command line has one, whose base name has at most 123 bytes: the client's
    -- `main` returns, whatever the resolver, the peers, the connection and the array do; and its
    -- value is 0 exactly if the command line has three words, whether the file was sent or not.
    pub main_returns :
        (fuel n k : ℕ) (w : World) (words : List (List ℕ))
        → ((host port : List ℕ) → length (io.async_resolve host port).1 ≤ n)
        → ((path content : List ℕ) → w.file path ≡ some content → length content ≤ k)
        → n + k + 3 ≤ fuel
        → PathFits words
        → (end : ClientEnd io) × (main io fuel frame w words ≡ ok end)
          × (end.exit_code ≡ exit_for words)
    main_returns fuel n k w words endpoints sizes enough fits =
        Safe-Ends (Exits words) (main io fuel frame w words) (main-Safe fuel w words fits)
          (main_ends io fuel n k frame w words endpoints sizes enough)
