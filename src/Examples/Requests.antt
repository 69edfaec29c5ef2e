-- ===== src/Examples/Requests.antt =====
-- Runs of the client's callbacks.
use net_file_transfer.Base.{
  List, [], ◌∷◌, none, some, ok, fault, true, false, ◌≡◌, refl, inl, arith,
}
use net_file_transfer.LibEvent.{null_ctx, Events}
use net_file_transfer.LibEvent.Queues.{bytes_only, queues, queues-IsLibEvent, Queues}
use net_file_transfer.OpenSsl.Toy.{toy, toy-IsMd5}
use net_file_transfer.Interface.{head, file_data, fin}
use net_file_transfer.Server.{request_bytes}
use net_file_transfer.Client.{Client, Scratch, read_cb, event_cb}
use net_file_transfer.Client.Answer.{CanSend, read_cb-Describes}
use net_file_transfer.Client.Exchange.{header, these, answer, Ask, exchange, Gives}
use net_file_transfer.Client.Replies.{exchange-answer}
use net_file_transfer.Client.Steps.{
  watched_ctx, Reaches, here, received, told, Steady, Reaches-Steady,
}
use net_file_transfer.Examples.{in_name, out_name, system, three_bytes, can_send}

-- A server that asks for the header, twice for the data, and says FIN.
abbrev scratch : Scratch
scratch = (system 0 three_bytes).scratch

can :
    CanSend queues
      (system 0 three_bytes).client
      (system 0 three_bytes).scratch
      in_name
      out_name
      three_bytes
can = can_send 0 three_bytes (omega arith)

abbrev asks : List Ask
asks = (head, scratch) ∷ (file_data, scratch) ∷ (file_data, scratch) ∷ (fin, scratch) ∷ []

abbrev quiet : Queues
quiet = bytes_only [] []

exchange-answer_example :
    Gives queues toy out_name three_bytes quiet
      (some (none, header ∷ these three_bytes ∷ these [] ∷ []))
      (exchange queues toy asks ((system 0 three_bytes).client, quiet))
unfolding answer
exchange-answer_example =
    exchange-answer queues-IsLibEvent toy-IsMd5 in_name out_name three_bytes asks none
      (system 0 three_bytes).client quiet (can, (can, (can, (can, tt)))) (inl refl) refl

-- One that asks for the data at once.
data_first :
    exchange queues toy ((file_data, scratch) ∷ []) ((system 0 three_bytes).client, quiet) ≡ fault
unfolding answer
data_first =
    exchange-answer queues-IsLibEvent toy-IsMd5 in_name out_name three_bytes
      ((file_data, scratch) ∷ []) none (system 0 three_bytes).client quiet (can, tt) (inl refl) refl

-- The client is asked for the header, and then its connection fails.
abbrev with_head : Queues
with_head = bytes_only (request_bytes head) []

asked_head :
    (c : Client queues) × (bev : Queues) × (read_cb queues toy
        (system 0 three_bytes).client
        scratch
        with_head
      ≡ ok (c, bev))
asked_head =
    let (c, bev, f, ran, _, _, _, _, _) =
      read_cb-Describes queues-IsLibEvent toy-IsMd5 (system 0 three_bytes).client scratch with_head
        can refl in
    (c, bev, ran)

abbrev at_error : Events
at_error = record { connected = false; eof = false; error = true }

fails :
    Reaches queues toy
      (watched_ctx queues (system 0 three_bytes).client)
      (system 0 three_bytes).client
      (at_error ∷ [])
      (event_cb queues toy null_ctx 3 [] asked_head.0 at_error).0
fails = told 3 [] at_error (received scratch with_head asked_head.1 here asked_head.2) refl

Reaches-Steady_example :
    Steady queues null_ctx
      (system 0 three_bytes).client
      (at_error ∷ [])
      (event_cb queues toy null_ctx 3 [] asked_head.0 at_error).0
Reaches-Steady_example = Reaches-Steady queues-IsLibEvent (system 0 three_bytes).client fails
