-- ===== src/Cpp/Client/Run.antt =====
-- The whole client, from the command line to the end of `service.run()`.
use net_file_transfer.Base.{
  ℕ, zero, suc, ◌+◌, ◌-◌, ◌<◌, ◌≤◌, ◌≡◌, refl, ap, ◌∙◌, true, List, [], ◌∷◌, ◌++◌, some, none, ok,
  length, arith,
}
use net_file_transfer.Memory.{basename}
use net_file_transfer.Stdio.{World}
use net_file_transfer.Asio.{Asio, IsAsio, success}
use net_file_transfer.Cpp.Header.{encode_fileinfo}
use net_file_transfer.Cpp.Client.{
  resolving, connecting, announcing, handle_resolve, connect_first, Frame, Client, split_colon,
  resolve, resolve_opened, new_client, complete, service_run, destroy_client, main,
}
use net_file_transfer.Cpp.Client.Endpoints.{
  first_accepting, first_accepting-accepts, tries, tries-le, last_endpoint,
}
use net_file_transfer.Cpp.Client.Connect.{tried, connecting-announcing, connecting-none, refused_by}
use net_file_transfer.Cpp.Client.Send.{Sent, announce_round, write_done, send_more-Sent}

-- The client that the constructor leaves when the file is there and the host has a port.
abbrev pub ready : (io : Asio) → List ℕ → List ℕ → List ℕ → List ℕ → Client io
ready io path content host port = record {
  server_host = host;
  port = port;
  filename = path;
  filesize = 0;
  fp = some content;
  socket = none;
  console = [];
}

module _ (io : Asio) (frame : Frame) where
  pub new_client-ready :
      (w : World) (server_host path content host port : List ℕ)
      → w.file path ≡ some content
      → split_colon server_host ≡ some (host, port)
      → new_client io w server_host path ≡ (ready io path content host port, resolving host port)
  unfolding new_client resolve_opened resolve
  new_client-ready w server_host path content host port there split = rw (there, split) refl

  resolve_round :
      (fuel : ℕ) (c : Client io) (host port : List ℕ) (e : io.Endpoint) (es : List io.Endpoint)
      → io.async_resolve host port ≡ (success, e ∷ es)
      → service_run io (suc fuel) frame (resolving host port) c
        ≡ service_run io fuel frame (connecting e es) c
  unfolding service_run complete handle_resolve connect_first
  resolve_round fuel c host port e es found = rw found

  main-service_run :
      (fuel : ℕ) (w : World) (name server_host path content host port : List ℕ) {c : Client io}
      → w.file path ≡ some content
      → split_colon server_host ≡ some (host, port)
      → service_run io fuel frame (resolving host port) (ready io path content host port) ≡ ok c
      → main io fuel frame w (name ∷ server_host ∷ path ∷ [])
        ≡ ok (record { exit_code = 0; lines = []; client = some (destroy_client io c) })
  unfolding main
  main-service_run fuel w name server_host path content host port there split ran =
      rw (new_client-ready w server_host path content host port there split, ran) refl

  -- If the client's file is there, its host has a port and resolves, but none of its endpoints
  -- accepts, then with more fuel than endpoints the client's `main` returns 0 all the same, with
  -- the file still open, and the only thing printed the error of the endpoint that was tried last.
  pub main-none :
      (fuel : ℕ) (w : World) (name server_host path content host port : List ℕ) (e : io.Endpoint)
      (es : List io.Endpoint)
      → w.file path ≡ some content
      → split_colon server_host ≡ some (host, port)
      → io.async_resolve host port ≡ (success, e ∷ es)
      → first_accepting io e es ≡ none
      → length es + 1 < fuel
      → main io fuel frame w (name ∷ server_host ∷ path ∷ [])
        ≡ ok (record {
          exit_code = 0;
          lines = [];
          client = some (
              destroy_client io
                (refused_by io (last_endpoint e es) (ready io path content host port)));
        })
  main-none zero w name server_host path content host port e es there split found first enough =
      absurd (omega arith)
  main-none (suc fuel) w name server_host path content host port e es there split found first
        enough =
      main-service_run (suc fuel) w name server_host path content host port there split (
        resolve_round fuel (ready io path content host port) host port e es found
        ∙ connecting-none io frame fuel e es (ready io path content host port) first (omega arith))

-- The fuel that is left once an endpoint has accepted.
fuel_left :
    (fuel tried a n : ℕ)
    → tried ≤ 1 + a
    → a + n + 3 < fuel
    → (k : ℕ) × (fuel ≡ suc (tried + suc k)) × (n < k)
fuel_left fuel tried a n le enough = (fuel - 2 - tried, omega arith, omega arith)

module _ {io : Asio} (v : IsAsio io) (frame : Frame) where
  -- The destructor leaves what was sent.
  destroy_client-Sent :
      (c c' : Client io) (bytes : List ℕ) (n : ℕ)
      → Sent io c c' bytes n
      → Sent io c (destroy_client io c') bytes n
  unfolding destroy_client
  destroy_client-Sent c c' bytes n d = record {
    socket = io.close d.socket;
    at_socket = rw d.at_socket refl;
    sent = v.close_sent d.socket ∙ d.sent;
    ended = v.close_ends d.socket d.ended;
    closed = d.closed;
    counted = d.counted;
  }

  -- From the accepted connection on.
  announcing-Sent :
      (fuel : ℕ) (c : Client io) (info content : List ℕ) (a : io.Endpoint)
      → c.fp ≡ some content
      → c.filesize ≡ 0
      → (io.async_connect a).0 ≡ success
      → io.healthy (io.async_connect a).1 ≡ true
      → length content < fuel
      → (c' : Client io) × (service_run io (suc fuel) frame (announcing info) (tried io frame c a)
          ≡ ok c')
        × Sent io c c' (frame.later info ++ content) (length content)
  announcing-Sent fuel c info content a opened none' accepted healthy enough =
      let socket = (io.async_connect a).1 in
      let bytes = frame.later info in
      let c₁ = tried io frame c a in
      let (_, sent, still) = v.write_all socket bytes healthy in
      let socket₂ = (io.async_write socket bytes).1 in
      let c₂ : Client io = record c₁ { socket = some socket₂ } in
      let (c', ran, d) =
        send_more-Sent v fuel frame content c₂ socket₂ refl still (omega arith) enough in
      (
        c',
        announce_round io fuel frame info c₁
              (write_done v c₁ socket bytes content refl opened healthy)
            ∙ ran,
        record {
          socket = d.socket;
          at_socket = d.at_socket;
          sent =
              d.sent
              ∙ ap (λ b. b ++ content) (sent ∙ ap (λ b. b ++ bytes) (v.connect_sent a accepted));
          ended = d.ended;
          closed = d.closed;
          counted = d.counted;
        },
      )

  -- If the client's file is there, its host has a port and resolves, the first endpoint that
  -- accepts takes what is sent, and the array of the base name is `info`, then with more fuel than
  -- the bytes of the file, the endpoints and two the client's `main` returns 0, its file is closed
  -- and counted modulo 2^64, and the socket that it keeps has sent what stands in place of `info`
  -- by then and the whole file, in order, and has shut down its sending side.
  pub main-Sent :
      (fuel : ℕ) (w : World) (name server_host path content host port info : List ℕ)
      (e : io.Endpoint) (es : List io.Endpoint) (a : io.Endpoint)
      → w.file path ≡ some content
      → split_colon server_host ≡ some (host, port)
      → io.async_resolve host port ≡ (success, e ∷ es)
      → first_accepting io e es ≡ some a
      → io.healthy (io.async_connect a).1 ≡ true
      → encode_fileinfo frame.before (basename path) ≡ ok info
      → length es + length content + 3 < fuel
      → (c : Client io) × (main io fuel frame w (name ∷ server_host ∷ path ∷ [])
          ≡ ok (record { exit_code = 0; lines = []; client = some c }))
        × Sent io (ready io path content host port) c (frame.later info ++ content) (length content)
  main-Sent fuel w name server_host path content host port info e es a there split found first
        healthy encoded enough =
      let c₀ = ready io path content host port in
      let (k, same, more) =
        fuel_left fuel (tries io e es) (length es) (length content) (tries-le io e es) enough in
      let (c, ran, d) =
        announcing-Sent k c₀ info content a refl refl (first_accepting-accepts io e es first)
          healthy more in
      (
        destroy_client io c,
        main-service_run io frame fuel w name server_host path content host port there split (
            ap (λ n. service_run io n frame (resolving host port) c₀) same
            ∙ resolve_round io frame (tries io e es + suc k) c₀ host port e es found
            ∙ connecting-announcing io frame (suc k) e es c₀ first encoded
            ∙ ran),
        destroy_client-Sent c₀ c (frame.later info ++ content) (length content) d,
      )
