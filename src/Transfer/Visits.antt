-- ===== src/Transfer/Visits.antt =====
-- One server and many clients, which connect one after the other, each once the session of the one
-- before is over.
use net_file_transfer.Base.{
  ℕ, ◌+◌, ◌<◌, ◌≤◌, ◌≡◌, refl, ap, ◌∙◌, true, List, [], ◌∷◌, Option, some, Outcome, ok, ◌>>=◌,
  length, arith,
}
use net_file_transfer.Memory.{basename}
use net_file_transfer.LibEvent.{LibEvent, IsLibEvent}
use net_file_transfer.OpenSsl.{Md5, IsMd5}
use net_file_transfer.FileInfo.{FileInfo}
use net_file_transfer.Stdio.{World, FileName, put_file}
use net_file_transfer.Stdio.Files.{
  Left, Left-logged, Left-SameWorld, Left-Left, Left-none, put_file_unique,
}
use net_file_transfer.Interface.{RequestType, fin}
use net_file_transfer.Server.{Server}
use net_file_transfer.Client.{Client, Scratch}
use net_file_transfer.Client.Answer.{CanSend}
use net_file_transfer.Config.{Parameter, Opt, parse_commandline}
use net_file_transfer.Main.{Startup, address, configured, server_main}
use net_file_transfer.Transfer.{connect, run, session}
use net_file_transfer.Transfer.Data.{ArePieces, total_of}
use net_file_transfer.Transfer.Programs.{Starts, connect-Transferred, server_main-configured}

-- A client, what stands on the server's stack when it connects, the pieces in which its data
-- arrives, and what it is to send under which name.
pub record Visit (l : LibEvent) : Type 0 where
  pub frame : FileInfo
  pub client : Client l
  pub scratch : Scratch
  pub pieces : List ℕ
  pub infile : List ℕ
  pub outfile : List ℕ
  pub content : List ℕ

module _ (l : LibEvent) (m : Md5) where
  -- The server after a connection and its session.
  unfoldable pub visit : Server → Visit l → Outcome Server
  visit s v =
      (connect l m true s v.frame v.client v.scratch >>= λ y. run l m y (session v.pieces)) >>= λ t.
      ok t.server

  unfoldable pub visits : List (Visit l) → Server → Outcome Server
  visits [] s = ok s
  visits (v ∷ vs) s = visit s v >>= λ t. visits vs t

-- What a server is for: a store of files, to which each client adds one under its base name.
unfoldable pub stored_files :
    {l : LibEvent} → (FileName → Option (List ℕ)) → List (Visit l) → FileName → Option (List ℕ)
stored_files files [] = files
stored_files files (v ∷ vs) = stored_files (put_file files (basename v.outfile) v.content) vs

abbrev pub bytes_of : {l : LibEvent} → List (Visit l) → ℕ
bytes_of [] = 0
bytes_of (v ∷ vs) = length v.content + bytes_of vs

-- The last request.
abbrev pub status_after : {l : LibEvent} → RequestType → List (Visit l) → RequestType
status_after t [] = t
status_after t (v ∷ vs) = status_after fin vs

-- The server's threads run, and it has memory.
pub record Works (w : World) : Type 0 where
  pub creates : w.pthread_create ≡ 0
  pub joins : w.pthread_join ≡ 0
  pub allocates : w.malloc ≡ true

-- The client can send its file, of a byte at least, and the server may write it.
pub record CanVisit (l : LibEvent) (w : World) (v : Visit l) : Type 0 where
  pub can_send : CanSend l v.client v.scratch v.infile v.outfile v.content
  pub opens : w.writable (basename v.outfile) ≡ true
  pub some_bytes : 0 < length v.content
  pub pieces : ArePieces v.pieces
  pub whole : total_of v.pieces ≡ length v.content

abbrev pub CanVisitAll : (l : LibEvent) → World → List (Visit l) → Type 0
CanVisitAll l w [] = Unit {0}
CanVisitAll l w (v ∷ vs) = CanVisit l w v × CanVisitAll l w vs

-- What is asked of the server's environment stays while it writes.
Left-Works : {n : ℕ} {w w' : World} → Left n w w' → Works w → Works w'
Left-Works left works = record {
  creates = left.pthread_create ∙ works.creates;
  joins = left.pthread_join ∙ works.joins;
  allocates = left.malloc ∙ works.allocates;
}

Left-CanVisitAll :
    {l : LibEvent} {n : ℕ} {w w' : World} (vs : List (Visit l))
    → Left n w w'
    → CanVisitAll l w vs
    → CanVisitAll l w' vs
Left-CanVisitAll [] left can = tt
Left-CanVisitAll (v ∷ vs) left (can, cans) = (
  record {
    can_send = can.can_send;
    opens = ap (λ f. f (basename v.outfile)) left.writable ∙ can.opens;
    some_bytes = can.some_bytes;
    pieces = can.pieces;
    whole = can.whole;
  },
  Left-CanVisitAll vs left cans,
)

-- Files that agree still do once the same files are added.
stored_files-agree :
    {l : LibEvent} (vs : List (Visit l)) (files files' : FileName → Option (List ℕ))
    → ((other : FileName) → files other ≡ files' other)
    → (other : FileName) → stored_files files vs other ≡ stored_files files' vs other
unfolding stored_files put_file
stored_files-agree [] files files' same other = same other
stored_files-agree (v ∷ vs) files files' same other =
    stored_files-agree vs _ _ (λ x. rw (same x) refl) other

-- The server when all of the clients have been served.
pub record Served (l : LibEvent) (s : Server) (vs : List (Visit l)) (t : Server) : Type 0 where
  pub stored : (other : FileName) → t.world.file other ≡ stored_files s.world.file vs other
  pub left : Left (bytes_of vs) s.world t.world
  pub status : t.status ≡ status_after s.status vs

module _ {l : LibEvent} {m : Md5} (lv : IsLibEvent l) (mv : IsMd5 m) where
  visit-Transferred :
      (s : Server) (v : Visit l) (works : Works s.world)
      → CanVisit l s.world v
      → length v.content ≤ s.world.space
      → (t : Server) × (visit l m s v ≡ ok t)
        × ((other : FileName)
            → t.world.file other ≡ put_file s.world.file (basename v.outfile) v.content other)
        × Left (length v.content) s.world t.world
        × (t.status ≡ fin)
  unfolding visit
  visit-Transferred s v works can room =
      let (_, y, connected, ran, d) =
        connect-Transferred lv mv s v.frame v.client v.scratch v.pieces can.can_send
          (record {
            creates = works.creates;
            joins = works.joins;
            allocates = works.allocates;
            opens = can.opens;
          })
          can.some_bytes room can.pieces can.whole in
      (
        y.server,
        rw (connected, ran) refl,
        put_file_unique s.world.file y.server.world.file (basename v.outfile) v.content d.stored
            d.others,
        d.left,
        d.traffic.status,
      )

  -- All of the visits, whatever the server was doing before.
  pub visits-Served :
      (vs : List (Visit l)) (s : Server)
      → Works s.world
      → CanVisitAll l s.world vs
      → bytes_of vs ≤ s.world.space
      → (t : Server) × (visits l m vs s ≡ ok t) × Served l s vs t
  unfolding visits stored_files
  visits-Served [] s works can room =
      (s, refl, record { stored = λ other. refl; left = Left-none s.world; status = refl })
  visits-Served (v ∷ vs) s works (can, cans) room =
      let (t, ran, files, left, status) = visit-Transferred s v works can (omega arith) in
      let (u, ran', d) =
        visits-Served vs t (Left-Works left works) (Left-CanVisitAll vs left cans)
          (omega (arith, left.space)) in
      (
        u,
        rw ran ran',
        record {
          stored = λ other. d.stored other ∙ stored_files-agree vs t.world.file _ files other;
          left = Left-Left left d.left;
          status = d.status ∙ ap (λ x. status_after x vs) status;
        },
      )

  -- The server under c and any number of clients, one after the other, the next connecting once
  -- the session of the one before is over. If the server's command line is accepted and the calls
  -- of libevent at the start succeed, its threads run and it has memory, each client can send a
  -- file of at least one byte whose base name can be written, the header and the requests of each
  -- session arrive whole and the header stays on the server's stack, the data comes in any pieces
  -- of at least a byte, and the server's disk has room for all of the files together: then the
  -- server's `main`, over the event loop that serves these clients, returns 0; the server's files
  -- are those of a store to which each client in its turn has added its content under the base
  -- name of its output file, so that of two with the same name the later one stays, and no other
  -- file has changed; the room is less by the bytes of all files and the rest of the environment
  -- as before; and the last request is FIN, or as it was if no client came.
  pub server_main-Served :
      (u : Startup) (vs : List (Visit l)) (s : Server) (para p : Parameter) (options : List Opt)
      → parse_commandline para options ≡ ok (p, 0)
      → Starts u p
      → Works s.world
      → CanVisitAll l s.world vs
      → bytes_of vs ≤ s.world.space
      → (t : Server) × (server_main u (visits l m vs) para options s
          ≡ ok (record { exit_code = 0; para = p; bound = some (address u p); final = t }))
        × Served l s vs t
  server_main-Served u vs s para p options parsed starts works can room =
      let logged = Left-logged (configured s).world.log (Left-none s.world) in
      let (t, ran, d) =
        visits-Served vs (configured s) (Left-Works logged works) (Left-CanVisitAll vs logged can)
          room in
      (
        t,
        server_main-configured u s para p options (visits l m vs) t parsed starts ran,
        record { stored = d.stored; left = Left-SameWorld refl d.left; status = d.status },
      )
