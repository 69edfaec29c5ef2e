-- ===== src/Examples/Networks.antt =====
-- The programs under cpp on networks that fail.
use net_file_transfer.Base.{
  ℕ, List, [], ◌∷◌, ◌++◌, none, some, true, false, ok, ◌≤◌, ◌≡◌, refl, ap, ◌∙◌, subst, length,
  take-append, length-append, Option, arith,
}
use net_file_transfer.Memory.{text, zeros, length-zeros}
use net_file_transfer.Memory.Text.{text_lem}
use net_file_transfer.Asio.{Asio, success, failure}
use net_file_transfer.Asio.Pipes.{Pipe, pipes, pipes-IsAsio}
use net_file_transfer.Config.{CInt, atoi}
use net_file_transfer.Cpp.Header.{decode_fileinfo}
use net_file_transfer.Cpp.Header.RoundTrip.{decode_fileinfo-announced}
use net_file_transfer.Cpp.Client
use net_file_transfer.Cpp.Client.{ClientEnd}
use net_file_transfer.Cpp.Client.Ends.{unread}
use net_file_transfer.Cpp.Client.Safe.{main_returns}
use net_file_transfer.Cpp.Server
use net_file_transfer.Cpp.Server.{ServerEnd}
use net_file_transfer.Cpp.Server.Handlers.{Announces}
use net_file_transfer.Cpp.Server.Safe.{Ended, main_returns_served}
use net_file_transfer.Examples.{out_name, world, three_bytes}
use net_file_transfer.Examples.Boost.{
  path, server_host, frame, info, incoming_pipe, basename-path', length-info,
}

-- A connection that breaks as soon as something is sent.
abbrev breaking : Asio
breaking = record pipes { async_write = λ p d. (failure 2, p) }

all_small : (content : List ℕ) → some three_bytes ≡ some content → length content ≤ 3
all_small content e = subst (λ (o : Option (List ℕ)). unread o ≤ 3) e (omega arith)

main_returns_example :
    (end : ClientEnd breaking) × (Client.main breaking 20 frame
        (world (some three_bytes) 0)
        (out_name ∷ server_host ∷ path ∷ [])
      ≡ ok end)
    × (end.exit_code ≡ 0)
main_returns_example =
    main_returns breaking (λ host port e. omega arith) frame (length-zeros 128) 20 2 3
      (world (some three_bytes) 0) (out_name ∷ server_host ∷ path ∷ []) (λ host port. omega arith)
      (λ path' content e. all_small content e) (omega arith)
      (omega (arith, ap length basename-path'))

-- A stream that breaks behind the name and three bytes.
abbrev broken : Pipe
broken = record (incoming_pipe (info ++ three_bytes)) { broken = true }

announces : Announces pipes-IsAsio out_name broken
announces room =
    ap decode_fileinfo (take-append 128 info three_bytes length-info)
    ∙ decode_fileinfo-announced out_name (zeros 122) (omega arith) length-info

abbrev port : CInt
port = record { negative = false; magnitude = 7 }

abbrev seven : List ℕ
seven = b'7' ∷ []

seven_port : atoi (seven ++ 0 ∷ []) ≡ ok port
unfolding atoi text
seven_port = refl

main_returns_served_example :
    (end : ServerEnd pipes) × (Server.main pipes
        (λ p. true)
        []
        200
        (zeros 128)
        (world none 9)
        ((success, broken) ∷ [])
        (out_name ∷ seven ∷ [])
      ≡ ok end)
    × Ended pipes-IsAsio
        (world none 9)
        out_name
        out_name
        (text_lem out_name [] (omega arith, (omega arith, (omega arith, tt))))
        true
        []
        end
main_returns_served_example =
    main_returns_served pipes-IsAsio (world none 9) out_name out_name
      (text_lem out_name [] (omega arith, (omega arith, (omega arith, tt)))) (λ p. true) [] 200 131
      (zeros 128) success broken [] out_name seven port seven_port (length-zeros 128) announces
      (omega (arith, length-info, length-append info three_bytes)) (omega arith)
