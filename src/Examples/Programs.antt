-- ===== src/Examples/Programs.antt =====
-- Both programs on their command lines: the client is to send `in` as `out`.
use net_file_transfer.Base.{
  ℕ, List, [], ◌∷◌, map, foldl, none, some, true, false, Outcome, ok, ◌>>=◌, ◌≡◌, refl, arith,
}
use net_file_transfer.Memory.{length-zeros}
use net_file_transfer.LibEvent.Queues.{queues, queues-IsLibEvent}
use net_file_transfer.OpenSsl.Toy.{toy, toy-IsMd5}
use net_file_transfer.FileInfo.{sizeof_fileinfo}
use net_file_transfer.Interface.{init}
use net_file_transfer.Config.{Parameter, parse_commandline}
use net_file_transfer.Config.Names.{IsParameter}
use net_file_transfer.Config.Choice.{
  Given, infile_given, outfile_given, opt_of, default_choice, choose,
}
use net_file_transfer.Config.Meaning.{parse_commandline-choose}
use net_file_transfer.Server.{Server, zero_fileinfo}
use net_file_transfer.Server.Head.{zero-IsFileInfo}
use net_file_transfer.Client.{Client}
use net_file_transfer.Main.{Startup, address, configured, server_main, Connected, client_main}
use net_file_transfer.Transfer.{System, connect, run, session}
use net_file_transfer.Transfer.Session.{Transferred}
use net_file_transfer.Transfer.Visits.{
  Visit, Works, CanVisitAll, visits, Served, server_main-Served,
}
use net_file_transfer.Transfer.Programs.{Starts, CanRead, Loops, client_main-server_main}
use net_file_transfer.Examples.{
  in_name, in_array, in_array-text, length-in_array, out_name, out_array, out_array-text,
  length-out_array, world, para, system, three_bytes, can_write, can_send,
}

abbrev pub startup : Startup
startup = record {
  inet_aton = λ t. none;
  event_base_new = true;
  bufferevent_socket_new = true;
  evconnlistener_new_bind = λ a. true;
  evsignal_new = true;
  event_add = true;
  bufferevent_socket_connect = λ a. true;
}

pub starting : (p : Parameter) → Starts startup p
starting p = record {
  base = refl;
  socket = refl;
  bind = refl;
  signal = refl;
  add = refl;
  connects = refl;
}

pub para-IsParameter : IsParameter para
para-IsParameter = record {
  host_length = length-zeros 50;
  infile_length = length-in_array;
  outfile_length = length-out_array;
}

abbrev givens : List Given
givens =
    infile_given in_array in_name in_array-text
    ∷ outfile_given out_array out_name out_array-text
    ∷ []

abbrev client : Client queues
client = (system 0 three_bytes).client

abbrev pub server : Server
server = record { status = init; world = world none 100; loop_exit = false }

-- The parameters of the client.
abbrev client_para : Parameter
client_para = (parse_commandline-choose para givens para-IsParameter).0

client_parsed : parse_commandline client.para (map opt_of givens) ≡ ok (client_para, 0)
unfolding choose
client_parsed = (parse_commandline-choose para givens para-IsParameter).1

abbrev pub server_para : Parameter
server_para = (parse_commandline-choose para [] para-IsParameter).0

pub server_parsed : parse_commandline para [] ≡ ok (server_para, 0)
server_parsed = (parse_commandline-choose para [] para-IsParameter).1

in_chosen : (foldl choose default_choice givens).infile ≡ some in_name
unfolding choose net_file_transfer.Memory.strip_slashes
in_chosen = refl

out_chosen : (foldl choose default_choice givens).outfile ≡ some out_name
unfolding choose net_file_transfer.Memory.strip_slashes
out_chosen = refl

can_read : CanRead queues client (system 0 three_bytes).scratch in_name three_bytes
can_read = record {
  str_array = length-zeros 5;
  there = refl;
  countable = omega arith;
  creates = refl;
  joins = refl;
  allocates = refl;
  stack = zero-IsFileInfo;
  heap = length-zeros sizeof_fileinfo;
}

-- The two loops, as one run of both sides.
abbrev both : Server → Outcome (System queues)
both s =
    connect queues toy true s zero_fileinfo (record client { para = client_para })
      (system 0 three_bytes).scratch
    >>= λ y. run queues toy y (session (1 ∷ 2 ∷ []))

abbrev client_loop : Connected queues → Outcome (Connected queues)
client_loop c = both (configured server) >>= λ t. ok (t.client, t.client_bev)

abbrev server_loop : Server → Outcome Server
server_loop s = both s >>= λ t. ok t.server

loops :
    Loops queues toy
      (record client { para = client_para })
      server
      zero_fileinfo
      (system 0 three_bytes).scratch
      (1 ∷ 2 ∷ [])
      client_loop
      server_loop
loops = record {
  client_makes = λ y t connected from at_client at_server ran. rw (connected, ran) refl;
  server_makes = λ y t connected at_client at_server ran. rw (connected, ran) refl;
}

client_main-server_main_example :
    (t : System queues) × (client_main queues startup client_loop (map opt_of givens) client
      ≡ ok (record {
        exit_code = 0;
        para = client_para;
        bound = some (address startup client_para);
        final = (t.client, t.client_bev);
      }))
    × (server_main startup server_loop para [] server
        ≡ ok (record {
          exit_code = 0;
          para = server_para;
          bound = some (address startup server_para);
          final = t.server;
        }))
    × Transferred queues-IsLibEvent toy-IsMd5 (world none 100) out_name three_bytes t
client_main-server_main_example =
    client_main-server_main queues-IsLibEvent toy-IsMd5 startup startup client server zero_fileinfo
      (system 0 three_bytes).scratch para client_para server_para givens [] (1 ∷ 2 ∷ []) client_loop
      server_loop para-IsParameter client_parsed server_parsed in_chosen out_chosen
      (starting client_para) (starting server_para) can_read (can_write 100) (omega arith)
      (omega arith) (omega arith, (omega arith, tt)) refl loops

-- Two clients with the same name for their files.
abbrev pub visitor : List ℕ → List ℕ → Visit queues
visitor content pieces = record {
  frame = zero_fileinfo;
  client = (system 0 content).client;
  scratch = (system 0 content).scratch;
  pieces = pieces;
  infile = in_name;
  outfile = out_name;
  content = content;
}

abbrev two_visitors : List (Visit queues)
two_visitors = visitor three_bytes (1 ∷ 2 ∷ []) ∷ visitor (7 ∷ []) (1 ∷ []) ∷ []

pub works : Works (world none 100)
works = record { creates = refl; joins = refl; allocates = refl }

pub visitors_can : CanVisitAll queues (world none 100) two_visitors
visitors_can = (
  record {
    can_send = can_send 0 three_bytes (omega arith);
    opens = refl;
    some_bytes = omega arith;
    pieces = (omega arith, (omega arith, tt));
    whole = refl;
  },
  (
    record {
      can_send = can_send 0 (7 ∷ []) (omega arith);
      opens = refl;
      some_bytes = omega arith;
      pieces = (omega arith, tt);
      whole = refl;
    },
    tt,
  ),
)

server_main-Served_example :
    (t : Server) × (server_main startup (visits queues toy two_visitors) para [] server
      ≡ ok (record {
        exit_code = 0;
        para = server_para;
        bound = some (address startup server_para);
        final = t;
      }))
    × Served queues server two_visitors t
server_main-Served_example =
    server_main-Served queues-IsLibEvent toy-IsMd5 startup two_visitors server para server_para []
      server_parsed (starting server_para) works visitors_can (omega arith)
