-- ===== src/Examples/Boost.antt =====
-- The programs under cpp: a file `d/out` of three bytes goes over plain byte lists to a server.
use net_file_transfer.Base.{
  ℕ, List, [], ◌∷◌, ◌++◌, none, some, true, false, ok, fault, ◌>>=◌, ◌≡◌, refl, ap, length, arith,
}
use net_file_transfer.Memory.{zeros, length-zeros, text, slash, basename}
use net_file_transfer.Memory.Text.{text_lem}
use net_file_transfer.Memory.BaseName.{basename-path}
use net_file_transfer.Memory.Decimal.{decimal}
use net_file_transfer.Asio.{Asio, success, eof}
use net_file_transfer.Asio.Pipes.{Pipe, pipes, pipes-IsAsio}
use net_file_transfer.Cpp.Header.{encode_fileinfo, decode_fileinfo}
use net_file_transfer.Cpp.Header.RoundTrip.{
  announced, decode_fileinfo-announced, decode_fileinfo-encode_fileinfo,
}
use net_file_transfer.Base.{◌↔◌, ◌<◌, ◌≤◌, take, drop, ◌+◌}
use net_file_transfer.Cpp.Header.Limits.{encode_fileinfo_limit, decode_fileinfo_limit}
use net_file_transfer.Cpp.Client
use net_file_transfer.Cpp.Client.{Frame, destroy_client, split_colon}
use net_file_transfer.Cpp.Client.Endpoints.{first_accepting, last_endpoint}
use net_file_transfer.Cpp.Client.Connect.{refused_by}
use net_file_transfer.Cpp.Client.Send.{Sent}
use net_file_transfer.Cpp.Client.Run.{ready, main-none, main-Sent}
use net_file_transfer.Cpp.Server
use net_file_transfer.Cpp.Server.Run.{listening}
use net_file_transfer.Cpp.Server.{Connection, async_tcp_server}
use net_file_transfer.Cpp.Server.Rounds.{kept}
use net_file_transfer.Cpp.Server.Accept.{FileReceived, async_tcp_server-FileReceived}
use net_file_transfer.Cpp.Session.{IsPeer, main-main}
use net_file_transfer.Examples.{out_name, world, three_bytes}

abbrev pub path : List ℕ
path = b'd' ∷ slash ∷ out_name

abbrev pub server_host : List ℕ
server_host = b'h' ∷ b':' ∷ b'1' ∷ []

abbrev pub frame : Frame
frame = record { before = zeros 128; later = λ b. b }

pub basename-path' : basename path ≡ out_name
basename-path' =
    basename-path (b'd' ∷ []) out_name (λ e. cc) (omega arith, (omega arith, (omega arith, tt)))

split_host : split_colon server_host ≡ some (b'h' ∷ [], b'1' ∷ [])
unfolding split_colon
split_host = refl

accepting : first_accepting pipes 0 (1 ∷ []) ≡ some 1
unfolding first_accepting
accepting = refl

-- The same, but the endpoints of a host are 0 and 2, which do not accept.
abbrev closed : Asio
closed = record pipes { async_resolve = λ host port. (success, 0 ∷ 2 ∷ []) }

refusing : first_accepting closed 0 (2 ∷ []) ≡ none
unfolding first_accepting
refusing = refl

-- The array for that name.
abbrev pub info : List ℕ
info = announced (decimal 20 3) out_name (zeros 122)

told : encode_fileinfo (zeros 128) (basename path) ≡ ok info
unfolding encode_fileinfo basename decimal zeros
told = refl

-- A connection with these bytes to come, and the connection at the other end of a client's.
abbrev pub incoming_pipe : List ℕ → Pipe
incoming_pipe bytes = record { received = bytes; broken = false; written = []; ended = false }

abbrev peer : Pipe → Pipe
peer p = incoming_pipe p.written

peer-IsPeer : IsPeer pipes peer
peer-IsPeer = record { incoming_sent = λ s. refl; ending_sent = λ s h. refl }

pub length-info : length info ≡ 128
unfolding decimal
length-info = omega (arith, length-zeros 122)

main-main_example :
    (c : Client.Client pipes) × (socket : Pipe) × (conn : Connection pipes) × (Client.main pipes 20
        frame
        (world (some three_bytes) 0)
        (out_name ∷ server_host ∷ path ∷ [])
      ≡ ok (record { exit_code = 0; lines = []; client = some c }))
    × (c.socket ≡ some socket)
    × (Server.main pipes
          (λ port. true)
          []
          20
          (zeros 128)
          (world none 9)
          ((success, peer socket) ∷ [])
          (out_name ∷ decimal 5 50013 ∷ [])
        ≡ ok (record {
          exit_code = 0;
          lines = listening 50013;
          served = some (record { connection = some conn; unaccepted = [] });
        }))
    × FileReceived pipes (world none 9) (basename path) three_bytes conn
main-main_example =
    main-main pipes-IsAsio peer peer-IsPeer frame 20 20 (world (some three_bytes) 0) (world none 9)
      out_name server_host path three_bytes (b'h' ∷ []) (b'1' ∷ []) (zeros 128) 0 (1 ∷ []) 1
      (λ port. true) [] out_name 5 50013 [] refl split_host refl accepting refl (length-zeros 128)
      (λ b. refl) (omega (arith, ap length basename-path'))
      (omega arith, (omega arith, (omega arith, (omega arith, (omega arith, tt))))) refl
      (length-zeros 128) (omega arith) (omega arith) refl (omega arith) (omega arith)

async_tcp_server-FileReceived_example :
    (c : Connection pipes) × (async_tcp_server pipes 20
        (zeros 128)
        (world none 9)
        ((success, incoming_pipe (info ++ three_bytes)) ∷ [])
      ≡ ok (record { connection = some c; unaccepted = [] }))
    × FileReceived pipes (world none 9) out_name (kept eof three_bytes) c
async_tcp_server-FileReceived_example =
    async_tcp_server-FileReceived pipes-IsAsio 20 (zeros 128) (world none 9)
      (incoming_pipe (info ++ three_bytes)) [] info three_bytes out_name out_name refl length-info
      (length-zeros 128) (decode_fileinfo-announced out_name (zeros 122) (omega arith) length-info)
      (text_lem out_name [] (omega arith, (omega arith, (omega arith, tt)))) refl (omega arith)

main-Sent_example :
    (c : Client.Client pipes) × (Client.main pipes 20 frame
        (world (some three_bytes) 0)
        (out_name ∷ server_host ∷ path ∷ [])
      ≡ ok (record { exit_code = 0; lines = []; client = some c }))
    × Sent pipes (ready pipes path three_bytes (b'h' ∷ []) (b'1' ∷ [])) c (info ++ three_bytes) 3
main-Sent_example =
    main-Sent pipes-IsAsio frame 20 (world (some three_bytes) 0) out_name server_host path
      three_bytes (b'h' ∷ []) (b'1' ∷ []) info 0 (1 ∷ []) 1 refl split_host refl accepting refl told
      (omega arith)

main-none_example :
    Client.main closed 20 frame (world (some three_bytes) 0) (out_name ∷ server_host ∷ path ∷ [])
    ≡ ok (record {
      exit_code = 0;
      lines = [];
      client = some (
          destroy_client closed (
            refused_by closed
              (last_endpoint 0 (2 ∷ []))
              (ready closed path three_bytes (b'h' ∷ []) (b'1' ∷ []))));
    })
main-none_example =
    main-none closed frame 20 (world (some three_bytes) 0) out_name server_host path three_bytes
      (b'h' ∷ []) (b'1' ∷ []) 0 (2 ∷ []) refl split_host refl refusing (omega arith)

decode_fileinfo-encode_fileinfo_example :
    (encode_fileinfo (zeros 128) out_name >>= decode_fileinfo) ≡ ok out_name
decode_fileinfo-encode_fileinfo_example =
    decode_fileinfo-encode_fileinfo (zeros 128) out_name (length-zeros 128) (omega arith)

-- The text of 200, and what stands behind it.
abbrev large_info : List ℕ
large_info = (b'2' ∷ b'0' ∷ b'0' ∷ []) ++ 0 ∷ zeros 124

large_info-text : text large_info ≡ ok (decimal 3 200)
unfolding decimal
large_info-text =
    text_lem (b'2' ∷ b'0' ∷ b'0' ∷ []) (zeros 124) (omega arith, (omega arith, (omega arith, tt)))

encode_fileinfo_limit_example :
    (encode_fileinfo (zeros 128) (zeros 124) ≡ fault) ↔ (123 < length (zeros 124))
encode_fileinfo_limit_example = encode_fileinfo_limit (zeros 128) (zeros 124) (length-zeros 128)

decode_fileinfo_limit_example :
    (200 ≤ 123
      → decode_fileinfo large_info ≡ ok (take 200 (drop (length (decimal 20 200) + 2) large_info)))
    × (123 < 200 → decode_fileinfo large_info ≡ fault)
decode_fileinfo_limit_example =
    decode_fileinfo_limit large_info 3 200 (omega (arith, length-zeros 124)) large_info-text
      (omega arith) (omega arith)
