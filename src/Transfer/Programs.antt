-- ===== src/Transfer/Programs.antt =====
-- Both programs, from their command lines to the values that `main` returns.
use net_file_transfer.Base.{
  ℕ, ◌<◌, ◌≤◌, ◌^◌, ◌≡◌, refl, sym, ap, subst, ◌∙◌, true, List, map, foldl, some, Outcome, ok,
  ok-injective, length, assert_holds,
}
use net_file_transfer.Memory.{text}
use net_file_transfer.LibEvent.{LibEvent, IsLibEvent, IsWatched}
use net_file_transfer.OpenSsl.{Md5, IsMd5}
use net_file_transfer.FileInfo.{FileInfo, IsFileInfo, sizeof_fileinfo}
use net_file_transfer.Stdio.{World}
use net_file_transfer.Config.{Parameter, Opt, parse_commandline}
use net_file_transfer.Config.Names.{IsParameter}
use net_file_transfer.Config.Choice.{Given, opt_of, default_choice, choose, Holds}
use net_file_transfer.Config.Meaning.{parse_commandline-choose}
use net_file_transfer.Server.{Server}
use net_file_transfer.Server.Receive.{CanWrite}
use net_file_transfer.Client.{Client, Scratch}
use net_file_transfer.Client.Answer.{CanSend}
use net_file_transfer.Main.{
  Startup, address, configured, server_serve, server_main, Connected, watching, client_connect,
  client_main,
}
use net_file_transfer.Transfer.{System, connect, run, session}
use net_file_transfer.Transfer.Data.{ArePieces, total_of, CanWrite-SameWorld}
use net_file_transfer.Transfer.Session.{Transferred, Transferred-SameWorld, session-Transferred}
use net_file_transfer.Transfer.Opening.{connect-Ready, connect-IsWatched, connect-watching}

-- The calls with which the two `main` functions start succeed.
pub record Starts (u : Startup) (p : Parameter) : Type 0 where
  pub base : u.event_base_new ≡ true
  pub socket : u.bufferevent_socket_new ≡ true
  pub bind : u.evconnlistener_new_bind (address u p) ≡ true
  pub signal : u.evsignal_new ≡ true
  pub add : u.event_add ≡ true
  pub connects : u.bufferevent_socket_connect (address u p) ≡ true

-- The client's side, apart from its parameters: the file is there, and it can work.
pub record CanRead (l : LibEvent) (c : Client l) (scratch : Scratch) (infile content : List ℕ)
    : Type 0 where
  pub str_array : length c.str ≡ 5
  pub there : c.world.file infile ≡ some content
  pub countable : length content < 2 ^ 64
  pub creates : c.world.pthread_create ≡ 0
  pub joins : c.world.pthread_join ≡ 0
  pub allocates : c.world.malloc ≡ true
  pub stack : IsFileInfo scratch.stack
  pub heap : length scratch.heap ≡ sizeof_fileinfo

-- What is said of the texts, of the parameters that the command line gives.
pub parsed-Holds :
    (para p : Parameter) (gs : List Given) {infile outfile : List ℕ}
    → IsParameter para
    → parse_commandline para (map opt_of gs) ≡ ok (p, 0)
    → (foldl choose default_choice gs).infile ≡ some infile
    → (foldl choose default_choice gs).outfile ≡ some outfile
    → IsParameter p × (text p.infile ≡ ok infile) × (text p.outfile ≡ ok outfile)
parsed-Holds para p gs {infile} {outfile} v parsed in_chosen out_chosen =
    let (p', ran, shows) = parse_commandline-choose para gs v in
    let same : p' ≡ p = ap (λ (r : Parameter × ℕ). r.0) (ok-injective (sym ran ∙ parsed)) in
    (
      subst IsParameter same shows.valid,
      subst (λ (q : Parameter). Holds q.infile (some infile)) same
          (subst (Holds p'.infile) in_chosen shows.infile),
      subst (λ (q : Parameter). Holds q.outfile (some outfile)) same
          (subst (Holds p'.outfile) out_chosen shows.outfile),
    )

module _ {l : LibEvent} {m : Md5} (lv : IsLibEvent l) (mv : IsMd5 m) where
  -- The connection and the session.
  pub connect-Transferred :
      (server : Server) (frame : FileInfo) (client : Client l) (scratch : Scratch) (pieces : List ℕ)
      {infile outfile content : List ℕ}
      → CanSend l client scratch infile outfile content
      → CanWrite server.world outfile
      → 0 < length content
      → length content ≤ server.world.space
      → ArePieces pieces
      → total_of pieces ≡ length content
      → (y t : System l) × (connect l m true server frame client scratch ≡ ok y)
        × (run l m y (session pieces) ≡ ok t)
        × Transferred lv mv server.world outfile content t
  connect-Transferred server frame client scratch pieces {infile} {outfile} {content} can_send
        can_write pos room positive sum =
      let (s, connected, r, same) =
        connect-Ready lv mv server frame client scratch can_send can_write in
      let (t, ran, d) =
        session-Transferred lv mv s pieces r pos
          (subst (λ n. length content ≤ n) (sym (ap (λ (w : World). w.space) same)) room) positive
          sum in
      (s, t, connected, ran, Transferred-SameWorld lv mv same d)

-- The event loops of the two programs make the callbacks of a session, if these are registered on
-- the bufferevent that the client's `main` watches and on the one that the server's `listen_cb` has
-- set up for it.
pub record Loops (l : LibEvent) (m : Md5) (c : Client l) (s : Server) (frame : FileInfo)
    (scratch : Scratch) (pieces : List ℕ) (client_loop : Connected l → Outcome (Connected l))
    (server_loop : Server → Outcome Server) : Type 0 where
  pub client_makes :
      (y t : System l)
      → connect l m true (configured s) frame c scratch ≡ ok y
      → (y.client, y.client_bev) ≡ watching l c
      → IsWatched l y.client_bev
      → IsWatched l y.server_bev
      → run l m y (session pieces) ≡ ok t
      → client_loop (watching l c) ≡ ok (t.client, t.client_bev)
  pub server_makes :
      (y t : System l)
      → connect l m true (configured s) frame c scratch ≡ ok y
      → IsWatched l y.client_bev
      → IsWatched l y.server_bev
      → run l m y (session pieces) ≡ ok t
      → server_loop (configured s) ≡ ok t.server

pub server_main-configured :
    (u : Startup) (s : Server) (para p : Parameter) (options : List Opt)
    (server_loop : Server → Outcome Server) (final : Server)
    → parse_commandline para options ≡ ok (p, 0)
    → Starts u p
    → server_loop (configured s) ≡ ok final
    → server_main u server_loop para options s
      ≡ ok (record { exit_code = 0; para = p; bound = some (address u p); final = final })
unfolding server_main server_serve
server_main-configured u s para p options server_loop final parsed starts ran = rw (
  parsed,
  assert_holds starts.base _,
  assert_holds starts.bind _,
  assert_holds starts.signal _,
  assert_holds starts.add _,
  ran,
)

module _ {l : LibEvent} {m : Md5} (lv : IsLibEvent l) (mv : IsMd5 m) where
  client_main-watching :
      (u : Startup) (c : Client l) (p : Parameter) (options : List Opt)
      (client_loop : Connected l → Outcome (Connected l)) (final : Connected l)
      → parse_commandline c.para options ≡ ok (p, 0)
      → Starts u p
      → client_loop (watching l (record c { para = p })) ≡ ok final
      → client_main l u client_loop options c
        ≡ ok (record { exit_code = 0; para = p; bound = some (address u p); final = final })
  unfolding client_main client_connect
  client_main-watching u c p options client_loop final parsed starts ran =
      rw (parsed, assert_holds starts.base _, starts.socket, starts.connects, ran) refl

  -- Both programs under c. If the client's command line, any list of options of which each is a
  -- text for -h, -f or -o, the text of an `int` for -p, or one that is not known, is accepted and
  -- stands for an input and an output file, the server's is accepted, the calls of libevent at the
  -- start succeed, the input file is there with at least one byte and the server has room for it,
  -- both environments let their side work, and the two event loops, if `read_cb` and `event_cb` are
  -- registered with NULL on the bufferevent that the client's `main` has set up and on the one that
  -- the server's `listen_cb` has, and reading is enabled on both, make the callbacks of a session
  -- from there, in which the header and the requests arrive whole, the header stays on the server's
  -- stack and the data comes in any pieces of at least a byte: then both `main` functions return
  -- 0, with the address of their own command line, and the file is stored whole under the base
  -- name of the output file, no other file of the server's has changed, the room is less by the
  -- bytes of the file and the rest of the server's environment as before, the server is at FIN
  -- with nothing on its way, and the client has freed its buffer and reset its request.
  pub client_main-server_main :
      (u v : Startup) (c : Client l) (s : Server) (frame : FileInfo) (scratch : Scratch)
      (para p q : Parameter) (gs : List Given) (options : List Opt) (pieces : List ℕ)
      (client_loop : Connected l → Outcome (Connected l)) (server_loop : Server → Outcome Server)
      {infile outfile content : List ℕ}
      → IsParameter c.para
      → parse_commandline c.para (map opt_of gs) ≡ ok (p, 0)
      → parse_commandline para options ≡ ok (q, 0)
      → (foldl choose default_choice gs).infile ≡ some infile
      → (foldl choose default_choice gs).outfile ≡ some outfile
      → Starts u p
      → Starts v q
      → CanRead l c scratch infile content
      → CanWrite s.world outfile
      → 0 < length content
      → length content ≤ s.world.space
      → ArePieces pieces
      → total_of pieces ≡ length content
      → Loops l m (record c { para = p }) s frame scratch pieces client_loop server_loop
      → (t : System l) × (client_main l u client_loop (map opt_of gs) c
          ≡ ok (record {
            exit_code = 0;
            para = p;
            bound = some (address u p);
            final = (t.client, t.client_bev);
          }))
        × (server_main v server_loop para options s
            ≡ ok (record { exit_code = 0; para = q; bound = some (address v q); final = t.server }))
        × Transferred lv mv s.world outfile content t
  client_main-server_main u v c s frame scratch para p q gs options pieces client_loop server_loop
        valid parsed parsed' in_chosen out_chosen starts starts' can_read can_write pos room
        positive sum loops =
      let (arrays, infile_named, outfile_named) =
        parsed-Holds c.para p gs valid parsed in_chosen out_chosen in
      let c₁ = record c { para = p } in
      let (y, t, connected, ran, d) =
        connect-Transferred lv mv (configured s) frame c₁ scratch pieces
          (record {
            infile_named = infile_named;
            infile_array = arrays.infile_length;
            outfile_named = outfile_named;
            outfile_array = arrays.outfile_length;
            str_array = can_read.str_array;
            there = can_read.there;
            countable = can_read.countable;
            creates = can_read.creates;
            joins = can_read.joins;
            allocates = can_read.allocates;
            stack = can_read.stack;
            heap = can_read.heap;
          })
          (CanWrite-SameWorld refl can_write) pos room positive sum in
      let (at_client, at_server) =
        connect-IsWatched lv mv (configured s) frame c₁ scratch y connected in
      (
        t,
        client_main-watching u c p (map opt_of gs) client_loop (t.client, t.client_bev) parsed
            starts
            (loops.client_makes y t connected
              (connect-watching lv mv (configured s) frame c₁ scratch y connected) at_client
              at_server ran),
        server_main-configured v s para q options server_loop t.server parsed' starts'
            (loops.server_makes y t connected at_client at_server ran),
        Transferred-SameWorld lv mv refl d,
      )
