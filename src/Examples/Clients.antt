-- ===== src/Examples/Clients.antt =====
-- Two clients in either order, and the callbacks of one.
use mathlib.Core.Logic.Or
use mathlib.Core.List.{Nodup-cons, Nodup-nil, not-mem-nil, mem-cons}
use mathlib.Core.List.Perm
use net_file_transfer.Base.{[], ◌∷◌, none, some, ok, ◌≡◌, ◌≢◌, refl, sym, ◌∙◌, arith}
use net_file_transfer.Memory.{basename}
use net_file_transfer.Memory.BaseName.{basename-name}
use net_file_transfer.LibEvent.Queues.{queues, queues-IsLibEvent}
use net_file_transfer.OpenSsl.Toy.{toy, toy-IsMd5}
use net_file_transfer.Server.{Server}
use net_file_transfer.Main.{address, server_main}
use net_file_transfer.Transfer.Visits.{Visit, CanVisit, visits}
use net_file_transfer.Transfer.Order.{deposits, Distinct, server_main-order}
use net_file_transfer.Examples.{
  in_name, in_array, in_array-text, length-in_array, out_name, basename-out_name, world, para,
  three_bytes, can_send,
}
use net_file_transfer.Examples.Programs.{
  startup, starting, server, server_para, server_parsed, works, visitor,
}

abbrev first : Visit queues
first = visitor three_bytes (1 ∷ 2 ∷ [])

-- A client that sends its file as `in`.
abbrev second : Visit queues
second =
    let v = visitor (7 ∷ []) (1 ∷ []) in
    record v {
      client = record v.client { para = record para { outfile = in_array } };
      outfile = in_name;
    }

first_can : CanVisit queues (world none 100) first
first_can = record {
  can_send = can_send 0 three_bytes (omega arith);
  opens = refl;
  some_bytes = omega arith;
  pieces = (omega arith, (omega arith, tt));
  whole = refl;
}

second_can : CanVisit queues (world none 100) second
second_can =
    let can = can_send 0 (7 ∷ []) (omega arith) in
    record {
      can_send = record {
        infile_named = can.infile_named;
        infile_array = can.infile_array;
        outfile_named = in_array-text;
        outfile_array = length-in_array;
        str_array = can.str_array;
        there = can.there;
        countable = can.countable;
        creates = can.creates;
        joins = can.joins;
        allocates = can.allocates;
        stack = can.stack;
        heap = can.heap;
      };
      opens = refl;
      some_bytes = omega arith;
      pieces = (omega arith, tt);
      whole = refl;
    }

basename-in_name : basename in_name ≡ in_name
basename-in_name = basename-name in_name (λ e. cc) (omega arith, (omega arith, tt))

different : basename out_name ≢ basename in_name
different e = out_ne_in (sym basename-out_name ∙ e ∙ basename-in_name)
  where
    out_ne_in : out_name ≢ in_name
    out_ne_in h = cc

names-Distinct : Distinct (deposits (first ∷ second ∷ []))
names-Distinct = Nodup-cons.1 (
  λ m. Or.elim (hlevel) (mem-cons.0 m) different not-mem-nil,
  Nodup-cons.1 (not-mem-nil, Nodup-nil),
)

server_main-order_example :
    (x y : Server) × (server_main startup (visits queues toy (first ∷ second ∷ [])) para [] server
      ≡ ok (record {
        exit_code = 0;
        para = server_para;
        bound = some (address startup server_para);
        final = x;
      }))
    × (server_main startup (visits queues toy (second ∷ first ∷ [])) para [] server
        ≡ ok (record {
          exit_code = 0;
          para = server_para;
          bound = some (address startup server_para);
          final = y;
        }))
    × (x.world.file ≡ y.world.file)
    × (x.world.space ≡ y.world.space)
server_main-order_example =
    server_main-order queues-IsLibEvent toy-IsMd5 startup (first ∷ second ∷ [])
      (second ∷ first ∷ []) server para server_para [] server_parsed (starting server_para) works
      (first_can, (second_can, tt)) (second_can, (first_can, tt)) (omega arith) (Perm.swap _ _ _)
      names-Distinct
