-- ===== src/Examples/Sessions.antt =====
-- Whole sessions.
use net_file_transfer.Base.{
  ℕ, List, [], ◌∷◌, ◌++◌, map, none, some, false, ok, ◌≡◌, refl, take, length, arith, ◌<◌,
}
use net_file_transfer.Memory.{basename}
use net_file_transfer.LibEvent.{outgoing}
use net_file_transfer.LibEvent.Queues.{bytes_only, queues, queues-IsLibEvent}
use net_file_transfer.OpenSsl.Toy.{toy, toy-IsMd5}
use net_file_transfer.FileInfo.{FileInfo}
use net_file_transfer.Stdio.{SameWorld}
use net_file_transfer.Interface.{file_data}
use net_file_transfer.Server.{zero_fileinfo, request_bytes}
use net_file_transfer.Transfer.{
  System, Event, to_server, to_client, overwrite, run, opening, session,
}
use net_file_transfer.Transfer.Data.{Delivered, InData, pieces_complete}
use net_file_transfer.Transfer.Session.{
  Transferred, Finished, Ready, session-Transferred, session-cut,
}
use net_file_transfer.Server.{Server}
use net_file_transfer.Interface.{init, head}
use net_file_transfer.Transfer.Partial.{cut_header-waits}
use net_file_transfer.Transfer.Stuck.{empty_file-waits, full_disk-waits, lost_header-waits}
use net_file_transfer.Examples.{
  in_name, out_name, buffering_world, can_send, out_array, out_array-text, world, system,
  three_bytes, ready, can_write,
}

abbrev two_pieces : List ℕ
two_pieces = 1 ∷ 2 ∷ []

session-Transferred_example :
    (t : System queues) × (run queues toy (system 100 three_bytes) (session two_pieces) ≡ ok t)
    × Transferred queues-IsLibEvent toy-IsMd5 (world none 100) out_name three_bytes t
session-Transferred_example =
    session-Transferred queues-IsLibEvent toy-IsMd5 (system 100 three_bytes) two_pieces
      (ready 100 three_bytes (omega arith)) (omega arith) (omega arith)
      (omega arith, (omega arith, tt)) refl

-- The same start, with room for two of the bytes and an `fwrite` that takes all of them.
abbrev cut_system : System queues
cut_system = record (system 2 three_bytes) {
  server = record { status = head; world = buffering_world none 2; loop_exit = false };
}

cut_ready : Ready queues-IsLibEvent toy-IsMd5 cut_system in_name out_name three_bytes
cut_ready = record {
  traffic = record {
    status = refl;
    server_in = refl;
    server_out = refl;
    client_in = refl;
    client_out = refl;
  };
  can_send = can_send 2 three_bytes (omega arith);
  can_write = record { creates = refl; joins = refl; allocates = refl; opens = refl };
}

session-cut_example :
    (t : System queues) × (run queues toy cut_system (session two_pieces) ≡ ok t)
    × Finished queues-IsLibEvent toy-IsMd5
        (buffering_world none 2)
        out_name
        (take 2 three_bytes)
        3
        t
    × (length (take 2 three_bytes) < 3)
session-cut_example =
    session-cut queues-IsLibEvent toy-IsMd5 cut_system two_pieces cut_ready (λ given n. refl)
      (omega arith) (omega arith, (omega arith, tt)) refl

-- Some deliveries, of which nothing comes.
abbrev later : List Event
later = to_server 10 ∷ to_client 4 ∷ []

empty_file-waits_example :
    (t : System queues) × (run queues toy (system 100 []) (opening ++ later) ≡ ok t)
    × (t.server.status ≡ file_data)
    × SameWorld (world none 100) t.server.world
empty_file-waits_example =
    empty_file-waits queues-IsLibEvent toy-IsMd5 (system 100 []) later (ready 100 [] (omega arith))
      tt

full_disk-waits_example :
    (t : System queues) × (run queues toy (system 2 three_bytes) (session two_pieces ++ later)
      ≡ ok t)
    × (t.server.status ≡ file_data)
    × (t.server.world.file (basename out_name) ≡ some (take 2 three_bytes))
unfolding net_file_transfer.Stdio.fwrite
full_disk-waits_example =
    full_disk-waits queues-IsLibEvent toy-IsMd5 (system 2 three_bytes) two_pieces later
      (ready 2 three_bytes (omega arith)) (omega arith) (omega arith, (omega arith, tt)) refl tt

abbrev large_header : FileInfo
large_header = record zero_fileinfo { size = 4 }

lost_header-waits_example :
    (t : System queues) × (run queues toy
        (system 100 three_bytes)
        (opening ++ overwrite large_header ∷ later)
      ≡ ok t)
    × (t.server.status ≡ file_data)
    × SameWorld (world none 100) t.server.world
lost_header-waits_example =
    lost_header-waits queues-IsLibEvent toy-IsMd5 (system 100 three_bytes) large_header later
      (ready 100 three_bytes (omega arith)) (omega arith) tt

-- The data on its way under a header for the three bytes.
abbrev small_header : FileInfo
small_header = record zero_fileinfo { name = out_array; size = 3 }

abbrev sending : System queues
sending = record (system 100 three_bytes) {
  server = record { status = file_data; world = world none 100; loop_exit = false };
  frame = small_header;
  server_bev = bytes_only [] [];
  client_bev = bytes_only [] three_bytes;
}

sending-InData : InData queues sending small_header (world none 100) [] three_bytes
sending-InData = record {
  traffic = record {
    status = refl;
    server_in = refl;
    server_out = refl;
    client_in = refl;
    client_out = refl;
  };
  on_stack = refl;
  same_world = refl;
}

pieces_complete_example :
    (t : System queues) × (run queues toy sending (map to_server two_pieces) ≡ ok t)
    × Delivered queues t (world none 100) out_name ([] ++ three_bytes)
    × (t.client ≡ sending.client)
pieces_complete_example =
    pieces_complete toy queues-IsLibEvent two_pieces sending small_header (world none 100) []
      three_bytes sending-InData refl (omega arith) out_array-text (can_write 100) (omega arith)
      (omega arith, (omega arith, tt)) refl

cut_header-waits_example :
    (y t : System queues) × (run queues toy
        (system 100 three_bytes)
        (to_client 4 ∷ to_server 100 ∷ [])
      ≡ ok y)
    × (y.server.status ≡ file_data)
    × (outgoing queues y.server_bev ≡ request_bytes file_data)
    × (run queues toy (system 100 three_bytes) (to_client 4 ∷ to_server 100 ∷ to_client 4 ∷ later)
        ≡ ok t)
    × (t.server.status ≡ file_data)
    × SameWorld (world none 100) t.server.world
cut_header-waits_example =
    cut_header-waits queues-IsLibEvent toy-IsMd5 (system 100 three_bytes) 100 later
      (ready 100 three_bytes (omega arith)) (omega arith) (omega arith) tt

-- A server that nobody has connected to.
abbrev waiting : Server
waiting = record { status = init; world = world none 100; loop_exit = false }
