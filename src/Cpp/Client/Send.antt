-- ===== src/Cpp/Client/Send.antt =====
-- The rounds in which `handle_read_file` is called.
use net_file_transfer.Base.{
  ℕ, zero, suc, ◌+◌, ◌%◌, ◌^◌, ◌<◌, ◌≡◌, refl, sym, ap, ◌∙◌, true, List, [], ◌∷◌, ◌++◌, some, none,
  ok, length, take, drop, take-append-drop, length-take, length-drop, lt→ltb, arith, append_assoc,
  append-nil,
}
use net_file_transfer.Stdio.{bufsiz, fread}
use net_file_transfer.Log.{number}
use net_file_transfer.Asio.{Asio, IsAsio}
use net_file_transfer.Cpp.{debug}
use net_file_transfer.Cpp.Client.{
  Pending, nothing, announcing, sending, Frame, Client, print, send_more, handle_read_file, send,
  complete, service_run,
}

-- A client that is done: its socket has sent these bytes and then shut down, the file is closed,
-- and so many bytes of it are counted.
pub record Sent (io : Asio) (c c' : Client io) (bytes : List ℕ) (n : ℕ) : Type 0 where
  pub socket : io.Socket
  pub at_socket : c'.socket ≡ some socket
  pub sent : io.sent socket ≡ bytes
  pub ended : io.sent_all socket ≡ true
  pub closed : c'.fp ≡ none
  pub counted : c'.filesize ≡ (c.filesize + n) % 2 ^ 64

service_run-nothing :
    (io : Asio) (fuel : ℕ) (frame : Frame) (c : Client io)
    → service_run io fuel frame nothing c ≡ ok c
unfolding service_run
service_run-nothing io zero frame c = refl
service_run-nothing io (suc fuel) frame c = refl

-- One round of the loop.
pub one_round :
    (io : Asio) (fuel : ℕ) (frame : Frame) (bytes : List ℕ) (c : Client io) {c' : Client io}
    {next : Pending io}
    → send io bytes c ≡ ok (c', next)
    → service_run io (suc fuel) frame (sending bytes) c ≡ service_run io fuel frame next c'
unfolding service_run complete
one_round io fuel frame bytes c e = rw e

pub announce_round :
    (io : Asio) (fuel : ℕ) (frame : Frame) (info : List ℕ) (c : Client io) {c' : Client io}
    {next : Pending io}
    → send io (frame.later info) c ≡ ok (c', next)
    → service_run io (suc fuel) frame (announcing info) c ≡ service_run io fuel frame next c'
unfolding service_run complete
announce_round io fuel frame info c e = rw e

-- The client after a piece was read.
abbrev piece_read : {io : Asio} → Client io → List ℕ → List ℕ → Client io
piece_read {io} c piece left =
    print io (debug "send size:" (number (length piece) ∷ []))
      (record c { filesize = (c.filesize + length piece) % 2 ^ 64; fp = some left })

send_more-piece :
    (io : Asio) (rest : List ℕ) (socket : io.Socket) (c : Client io)
    → 0 < length (take bufsiz rest)
    → send_more io rest socket c
      ≡ (piece_read c (take bufsiz rest) (drop bufsiz rest), sending (take bufsiz rest))
unfolding send_more fread
send_more-piece io rest socket c pos = rw (lt→ltb 0 (length (take bufsiz rest)) pos)

module _ {io : Asio} (v : IsAsio io) where
  pub write_done :
      (c : Client io) (socket : io.Socket) (bytes rest : List ℕ)
      → c.socket ≡ some socket
      → c.fp ≡ some rest
      → io.healthy socket ≡ true
      → send io bytes c
        ≡ ok (
            send_more io rest
              (io.async_write socket bytes).1
              (record c { socket = some (io.async_write socket bytes).1 }))
  unfolding send handle_read_file
  write_done c socket bytes rest connected opened healthy =
      let (no_error, _, _) = v.write_all socket bytes healthy in
      rw (connected, no_error, opened) refl

  -- With more fuel than bytes to read, the rest of the file is sent and the sending side shut.
  pub send_more-Sent :
      (fuel : ℕ) (frame : Frame) (rest : List ℕ) (c : Client io) (socket : io.Socket)
      → c.socket ≡ some socket
      → io.healthy socket ≡ true
      → c.filesize < 2 ^ 64
      → length rest < fuel
      → (c' : Client io) × (service_run io fuel frame
            (send_more io rest socket c).1
            (send_more io rest socket c).0
          ≡ ok c')
        × Sent io c c' (io.sent socket ++ rest) (length rest)
  unfolding send_more fread
  send_more-Sent zero frame rest c socket connected healthy bound enough = absurd (omega arith)
  send_more-Sent (suc fuel) frame [] c socket connected healthy bound enough = (
    (send_more io [] socket c).0,
    service_run-nothing io (suc fuel) frame _,
    record {
      socket = io.shutdown_send socket;
      at_socket = refl;
      sent = v.shutdown_sent socket ∙ sym (append-nil (io.sent socket));
      ended = v.shutdown_ends socket;
      closed = refl;
      counted = omega arith;
    },
  )
  send_more-Sent (suc fuel) frame (x ∷ rest) c socket connected healthy bound enough =
      let whole = x ∷ rest in
      let piece = take bufsiz whole in
      let left = drop bufsiz whole in
      let c₁ = piece_read c piece left in
      let pos : 0 < length piece = omega (arith, length-take bufsiz whole) in
      let (no_error, sent, still) = v.write_all socket piece healthy in
      let socket₂ = (io.async_write socket piece).1 in
      let (c', ran, d) =
        send_more-Sent fuel frame left (record c₁ { socket = some socket₂ }) socket₂ refl still
          (omega arith) (omega (arith, length-drop bufsiz whole)) in
      (
        c',
        ap (λ (r : Client io × Pending io). service_run io (suc fuel) frame r.1 r.0)
              (send_more-piece io whole socket c pos)
            ∙ one_round io fuel frame piece c₁
                (write_done c₁ socket piece left connected refl healthy)
            ∙ ran,
        record {
          socket = d.socket;
          at_socket = d.at_socket;
          sent =
              d.sent
              ∙ ap (λ b. b ++ left) sent
              ∙ append_assoc (io.sent socket) piece left
              ∙ ap (λ b. io.sent socket ++ b) (take-append-drop bufsiz whole);
          ended = d.ended;
          closed = d.closed;
          counted = omega (arith, d.counted, length-take bufsiz whole, length-drop bufsiz whole);
        },
      )
