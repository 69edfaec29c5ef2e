-- ===== src/Transfer/Opening.antt =====
-- A connection is what a session starts from.
use net_file_transfer.Base.{ℕ, ◌≡◌, List, true, ok, subst, ap, sym, ◌∙◌, >>=-eq-ok, ok-injective}
use net_file_transfer.LibEvent.{LibEvent, IsLibEvent, IsWatched}
use net_file_transfer.OpenSsl.{Md5, IsMd5}
use net_file_transfer.FileInfo.{FileInfo}
use net_file_transfer.Stdio.{SameWorld}
use net_file_transfer.Server.{Server, listen_cb}
use net_file_transfer.Main.{watching}
use net_file_transfer.Server.Receive.{CanWrite}
use net_file_transfer.Server.Sharing.{listen_cb-asks, listen_cb-IsWatched}
use net_file_transfer.Client.{Client, Scratch}
use net_file_transfer.Client.Answer.{CanSend}
use net_file_transfer.Transfer.{System, connect}
use net_file_transfer.Transfer.Data.{CanWrite-SameWorld}
use net_file_transfer.Transfer.Session.{Ready}

module _ {l : LibEvent} {m : Md5} (lv : IsLibEvent l) (mv : IsMd5 m) where
  -- What `main` logs does not keep the client from sending.
  watching-CanSend :
      (client : Client l) (scratch : Scratch) {infile outfile content : List ℕ}
      → CanSend l client scratch infile outfile content
      → CanSend l (watching l client).0 scratch infile outfile content
  watching-CanSend client scratch can = record {
    infile_named = can.infile_named;
    infile_array = can.infile_array;
    outfile_named = can.outfile_named;
    outfile_array = can.outfile_array;
    str_array = can.str_array;
    there = can.there;
    countable = can.countable;
    creates = can.creates;
    joins = can.joins;
    allocates = can.allocates;
    stack = can.stack;
    heap = can.heap;
  }

  -- On both sides of a connection the callbacks of a session are registered.
  pub connect-IsWatched :
      (server : Server) (frame : FileInfo) (client : Client l) (scratch : Scratch) (y : System l)
      → connect l m true server frame client scratch ≡ ok y
      → IsWatched l y.client_bev × IsWatched l y.server_bev
  unfolding connect
  connect-IsWatched server frame client scratch y e =
      let ((server', bev), ran, same) = >>=-eq-ok (listen_cb l m true server) _ e in
      let y_is = ok-injective same in
      (
        subst (IsWatched l) (ap (λ (s : System l). s.client_bev) y_is)
            (lv.enable_getcb _ ∙ lv.setcb_getcb _ _ _ _ _, lv.enable_reading _),
        subst (IsWatched l) (ap (λ (s : System l). s.server_bev) y_is)
            (listen_cb-IsWatched m lv server server' bev ran),
      )

  -- The client starts from where `main` has brought it.
  pub connect-watching :
      (server : Server) (frame : FileInfo) (client : Client l) (scratch : Scratch) (y : System l)
      → connect l m true server frame client scratch ≡ ok y
      → (y.client, y.client_bev) ≡ watching l client
  unfolding connect
  connect-watching server frame client scratch y e =
      let (r, ran, same) = >>=-eq-ok (listen_cb l m true server) _ e in
      ap (λ (s : System l). (s.client, s.client_bev)) (sym (ok-injective same))

  -- If libevent gives the server a bufferevent, a connection between any server whose environment
  -- lets it write and a client that can send returns the start of a session, whatever the server
  -- was doing before, with nothing but the log changed in the server's world.
  pub connect-Ready :
      (server : Server) (frame : FileInfo) (client : Client l) (scratch : Scratch)
      {infile outfile content : List ℕ}
      → CanSend l client scratch infile outfile content
      → CanWrite server.world outfile
      → (s : System l) × (connect l m true server frame client scratch ≡ ok s)
        × Ready lv mv s infile outfile content
        × SameWorld server.world s.server.world
  unfolding connect
  connect-Ready server frame client scratch can_send can_write =
      let (server', bev, ran, status, same, empty, asked) = listen_cb-asks m lv server in
      (
        record {
          server = server';
          frame = frame;
          server_bev = bev;
          client = (watching l client).0;
          scratch = scratch;
          client_bev = (watching l client).1;
        },
        rw ran,
        record {
          traffic = record {
            status = status;
            server_in = empty;
            server_out = asked;
            client_in = lv.enable_input _ ∙ lv.setcb_input _ _ _ _ _ ∙ lv.socket_new_input;
            client_out = lv.enable_output _ ∙ lv.setcb_output _ _ _ _ _ ∙ lv.socket_new_output;
          };
          can_send = watching-CanSend client scratch can_send;
          can_write = CanWrite-SameWorld same can_write;
        },
        same,
      )
