-- ===== src/Examples/Callbacks.antt =====
-- The callbacks of both sides.
use net_file_transfer.Base.{
  ℕ, List, [], ◌++◌, none, true, ok, fault, ◌>>=◌, ◌≡◌, refl, length, arith,
}
use net_file_transfer.Server.Limits.{IsHarmful, read_cb_limit}
use net_file_transfer.Base.{◌↔◌, aborted, false}
use net_file_transfer.Server.Receive.{CanWrite}
use net_file_transfer.Server.Failing.{read_cb_aborts}
use net_file_transfer.LibEvent.Queues.{bytes_only, queues, queues-IsLibEvent, Queues}
use net_file_transfer.OpenSsl.Toy.{toy, toy-IsMd5}
use net_file_transfer.FileInfo.{FileInfo, IsFileInfo, to_bytes}
use net_file_transfer.Interface.{head, file_data}
use net_file_transfer.Server.{
  Server, request_bytes, zero_fileinfo, listen_cb, read_cb as server_read_cb,
}
use net_file_transfer.Server.Head.{Headed}
use net_file_transfer.Server.Partial.{read_cb-size}
use net_file_transfer.Server.Receive.{Received, read_cb-Received}
use net_file_transfer.Server.Sharing.{listen_cb-overrun}
use net_file_transfer.Client.{Client, read_cb as client_read_cb}
use net_file_transfer.Client.Answer.{Holds, Describes, read_cb-Describes}
use net_file_transfer.Memory.{text, strip_slashes, zeros, length-zeros}
use net_file_transfer.Examples.{
  out_name, out_array, out_array-text, length-out_array, world, system, three_bytes, can_write,
  can_send,
}

abbrev header : FileInfo
header = record zero_fileinfo { name = out_array; size = 3 }

header-IsFileInfo : IsFileInfo header
header-IsFileInfo = record {
  name_length = length-out_array;
  size_bound = omega arith;
  info_length = length-zeros 16;
}

-- A server in a given state, and a connection on which given bytes wait.
abbrev asking : Server
asking = record { status = head; world = world none 100; loop_exit = true }

abbrev receiving : Server
receiving = record { status = file_data; world = world none 100; loop_exit = true }

abbrev with_bytes : List ℕ → Queues
with_bytes bytes = bytes_only bytes []

abbrev many : List ℕ
many = zeros 300

read_cb_limit_example :
    (server_read_cb queues toy asking header (with_bytes many) ≡ fault) ↔ IsHarmful many
read_cb_limit_example = read_cb_limit toy queues-IsLibEvent asking header (with_bytes many) refl

listen_cb-overrun_example :
    ((listen_cb queues toy true receiving >>= λ (s', other).
    server_read_cb queues toy s' header (with_bytes many))
      ≡ fault)
    ↔ IsHarmful many
listen_cb-overrun_example =
    listen_cb-overrun toy queues-IsLibEvent receiving header (with_bytes many)

read_cb-Received_example :
    (s' : Server) × (stack' : FileInfo) × (bev' : Queues) × (server_read_cb queues toy receiving
        header
        (with_bytes three_bytes)
      ≡ ok (s', stack', bev'))
    × (text stack'.name ≡ ok (strip_slashes out_name))
    × (stack'.size ≡ header.size)
    × (stack'.info ≡ header.info)
    × Received queues receiving s' out_name three_bytes (with_bytes three_bytes) bev'
read_cb-Received_example =
    read_cb-Received toy queues-IsLibEvent receiving header (with_bytes three_bytes) refl refl
      (omega arith) out_array-text (can_write 100)

-- The same without memory.
abbrev starved : Server
starved = record receiving { world = record receiving.world { malloc = false } }

read_cb_aborts_example :
    (server_read_cb queues toy starved header (with_bytes three_bytes) ≡ aborted)
    ↔ (¬ CanWrite starved.world out_name)
read_cb_aborts_example =
    read_cb_aborts toy queues-IsLibEvent starved header (with_bytes three_bytes) refl refl
      (omega arith) out_array-text

read_cb-Describes_example :
    (c' : Client queues) × (bev' : Queues) × (f : FileInfo) × (client_read_cb queues toy
        (system 100 three_bytes).client
        (system 100 three_bytes).scratch
        (with_bytes (request_bytes head))
      ≡ ok (c', bev'))
    × Describes toy f out_name three_bytes
    × Holds queues c'.buf three_bytes
    × (length c'.str ≡ 5)
    × (bev'.input ≡ [])
    × (bev'.output ≡ [] ++ to_bytes f)
read_cb-Describes_example =
    read_cb-Describes queues-IsLibEvent toy-IsMd5 (system 100 three_bytes).client
      (system 100 three_bytes).scratch (with_bytes (request_bytes head))
      (can_send 100 three_bytes (omega arith)) refl

read_cb-size_example :
    (s' : Server) × (f : FileInfo) × (bev' : Queues) × (server_read_cb queues toy asking header
        (with_bytes three_bytes)
      ≡ ok (s', f, bev'))
    × Headed queues asking s' (with_bytes three_bytes) bev'
    × (f.size ≡ 0)
read_cb-size_example =
    read_cb-size toy queues-IsLibEvent asking header (with_bytes three_bytes) three_bytes refl refl
      (omega arith)
