-- ===== src/Transfer.antt =====
-- The two processes and the connection between them: what c/file_serv.c and c/file_client.c do
-- when their event loops deliver bytes. TCP keeps the order and loses nothing, but cuts the bytes
-- where it likes: a schedule says how many arrive at a time.
pub mod Steps
pub mod Data
pub mod Messages
pub mod Session
pub mod Opening
pub mod Programs
pub mod Visits
pub mod Order
pub mod Stuck
pub mod Partial
use net_file_transfer.Base.{
  ℕ, zero, suc, Bool, List, [], ◌∷◌, ◌++◌, map, Outcome, ok, ◌>>=◌, >>=-eq-ok, ok-injective, ◌≡◌,
  ap, length, ltb, if◌then◌else◌,
}
use net_file_transfer.LibEvent.{LibEvent}
use net_file_transfer.OpenSsl.{Md5}
use net_file_transfer.FileInfo.{FileInfo, sizeof_fileinfo}
use net_file_transfer.Main.{watching}
use net_file_transfer.Server.{Server, listen_cb, read_cb as server_read_cb}
use net_file_transfer.Client.{Client, Scratch, read_cb as client_read_cb}

-- `frame` is what stands on the server's stack where `read_cb` keeps its local `finfo`.
pub record System (l : LibEvent) : Type 0 where
  pub server : Server
  pub frame : FileInfo
  pub server_bev : l.BufferEvent
  pub client : Client l
  pub scratch : Scratch
  pub client_bev : l.BufferEvent

-- At most so many bytes go over the connection, in either direction; or another call of the server
-- leaves something else on the stack.
pub data Event : Type 0 where
  to_server to_client : ℕ → Event
  overwrite : FileInfo → Event

module _ (l : LibEvent) (m : Md5) where
  -- A client connects: its `main` watches its bufferevent, the server's `listen_cb` has run, and
  -- nothing has been delivered.
  unfoldable pub connect : Bool → Server → FileInfo → Client l → Scratch → Outcome (System l)
  connect allocated server frame client scratch = do
    (server', server_bev) ← listen_cb l m allocated server
    let (client', client_bev) = watching l client
    ok (record {
      server = server';
      frame = frame;
      server_bev = server_bev;
      client = client';
      scratch = scratch;
      client_bev = client_bev;
    })

  -- A read callback is made only if bytes have arrived.
  unfoldable pub step : System l → Event → Outcome (System l)
  step s (to_server k) =
      let (bytes, client_bev) = l.sent s.client_bev k in
      let received = (do
        (server, frame, server_bev) ←
            server_read_cb l m s.server s.frame (l.arrived s.server_bev bytes)
        ok (record s {
          server = server;
          frame = frame;
          server_bev = server_bev;
          client_bev = client_bev;
        })) in
      if ltb 0 (length bytes) then received else ok s
  step s (to_client k) =
      let (bytes, server_bev) = l.sent s.server_bev k in
      let received = (do
        (client, client_bev) ← client_read_cb l m s.client s.scratch (l.arrived s.client_bev bytes)
        ok (record s { client = client; client_bev = client_bev; server_bev = server_bev })) in
      if ltb 0 (length bytes) then received else ok s
  step s (overwrite frame) = ok (record s { frame = frame })

  unfoldable pub run : System l → List Event → Outcome (System l)
  run s [] = ok s
  run s (e ∷ es) = do s' ← step s e; run s' es

  pub run-append :
      (s : System l) (es fs : List Event) {t : System l}
      → run s es ≡ ok t
      → run s (es ++ fs) ≡ run t fs
  unfolding run
  run-append s [] fs e = ap (λ u. run u fs) (ok-injective e)
  run-append s (x ∷ es) fs e =
      let (u, first, rest) = >>=-eq-ok (step s x) (λ u. run u es) e in
      rw first (run-append u es fs rest)

-- The request for the header, the header and the request for the data arrive whole.
abbrev pub opening : List Event
opening = to_client 4 ∷ to_server sizeof_fileinfo ∷ to_client 4 ∷ []

-- The schedule of a session: the opening, the data in pieces of the given sizes, and the last word.
unfoldable pub session : List ℕ → List Event
session pieces = opening ++ (map to_server pieces ++ to_client 4 ∷ [])
