-- ===== src/Transfer/Data.antt =====
-- The data on its way to the server, in pieces of any size.
use net_file_transfer.Base.{
  ℕ, ◌+◌, ◌<◌, ◌≤◌, ◌^◌, ◌≡◌, ◌≢◌, refl, sym, ap, ◌∙◌, List, [], ◌∷◌, ◌++◌, map, ok, some, length,
  take, drop, take_all, take-append-drop, subst, append_assoc, length-append, length-take,
  length-drop, arith,
}
use net_file_transfer.Memory.{text, basename}
use net_file_transfer.LibEvent.{LibEvent, IsLibEvent, incoming, outgoing}
use net_file_transfer.OpenSsl.{Md5}
use net_file_transfer.FileInfo.{FileInfo}
use net_file_transfer.Stdio.{World, SameWorld}
use net_file_transfer.Stdio.Counts.{counted}
use net_file_transfer.Stdio.Files.{Left, Left-SameWorld}
use net_file_transfer.Interface.{file_data, fin}
use net_file_transfer.Server.{Server, request_bytes}
use net_file_transfer.Server.Receive.{Received, CanWrite, read_cb-wait, read_cb-Received}
use net_file_transfer.Transfer.{System, to_server, step, run}
use net_file_transfer.Transfer.Steps.{Traffic, step-to_server, sent_all}

-- Pieces of at least a byte each.
abbrev pub ArePieces : List ℕ → Type 0
ArePieces [] = Unit {0}
ArePieces (k ∷ ks) = (0 < k) × ArePieces ks

abbrev pub total_of : List ℕ → ℕ
total_of [] = 0
total_of (k ∷ ks) = k + total_of ks

-- The data is on its way: `waiting` has arrived and `rest` has not; the header `f` still stands on
-- the server's stack, and the server's world is still `w`, the log aside.
pub record InData (l : LibEvent) (s : System l) (f : FileInfo) (w : World) (waiting rest : List ℕ)
    : Type 0 where
  pub traffic : Traffic l s file_data waiting [] rest
  pub on_stack : s.frame ≡ f
  pub same_world : SameWorld w s.server.world

-- The data has arrived and `writefile` has run: the file holds what the disk of `w` had room for,
-- no other file has changed, and the server's last word is on its way.
pub record Delivered (l : LibEvent) (s : System l) (w : World) (path content : List ℕ)
    : Type 0 where
  pub stored : s.server.world.file (basename path) ≡ some (take w.space content)
  pub others : (other : List ℕ) → other ≢ basename path → s.server.world.file other ≡ w.file other
  pub left : Left (length content) w s.server.world
  pub finished : counted w content ≡ length content → Traffic l s fin [] (request_bytes fin) []
  pub asks_again :
      counted w content < length content → Traffic l s file_data [] (request_bytes file_data) []

pub CanWrite-SameWorld :
    {w w' : World} {path : List ℕ} → SameWorld w w' → CanWrite w path → CanWrite w' path
CanWrite-SameWorld {path} same can = record {
  creates = ap (λ (v : World). v.pthread_create) same ∙ can.creates;
  joins = ap (λ (v : World). v.pthread_join) same ∙ can.joins;
  allocates = ap (λ (v : World). v.malloc) same ∙ can.allocates;
  opens = ap (λ (v : World). v.writable (basename path)) same ∙ can.opens;
}

module _ {l : LibEvent} (m : Md5) (lv : IsLibEvent l) where
  -- A piece that does not complete the data: it waits with what was there, and nothing else
  -- happens.
  pub piece_waits :
      (s : System l) (f : FileInfo) (w : World) (waiting rest : List ℕ) (k : ℕ)
      → InData l s f w waiting rest
      → 0 < length (take k rest)
      → length waiting + length (take k rest) ≢ f.size
      → (s' : System l) × (step l m s (to_server k) ≡ ok s')
        × InData l s' f w (waiting ++ take k rest) (drop k rest)
        × (s'.client ≡ s.client)
  piece_waits s f w waiting rest k d pos less =
      let t = d.traffic in
      let bytes = take k rest in
      let bev = l.arrived s.server_bev bytes in
      let here : incoming l bev ≡ waiting ++ bytes =
        lv.arrived_input s.server_bev bytes ∙ ap (λ b. b ++ bytes) t.server_in in
      let short : length (incoming l bev) ≢ s.frame.size = λ e. less (
        omega (
          arith,
          e,
          ap length here,
          length-append waiting bytes,
          ap (λ (g : FileInfo). g.size) d.on_stack,
        )) in
      (
        _,
        step-to_server m lv s k bytes _ s.frame bev (ap (take k) t.client_out) pos
            (read_cb-wait m lv s.server s.frame bev t.status short),
        record {
          traffic = record {
            status = t.status;
            server_in = here;
            server_out = lv.arrived_output s.server_bev bytes ∙ t.server_out;
            client_in = lv.sent_input s.client_bev k ∙ t.client_in;
            client_out = lv.sent_output s.client_bev k ∙ ap (drop k) t.client_out;
          };
          on_stack = d.on_stack;
          same_world = d.same_world;
        },
        refl,
      )

  Received-Delivered :
      (s : System l) (f : FileInfo) (w : World) (waiting rest path : List ℕ) (k : ℕ)
      (server : Server) (frame : FileInfo) (bev bev' : l.BufferEvent)
      → InData l s f w waiting rest
      → length rest ≤ k
      → outgoing l bev ≡ []
      → Received l s.server server path (waiting ++ rest) bev bev'
      → Delivered l
          (record s {
            server = server;
            frame = frame;
            server_bev = bev';
            client_bev = (l.sent s.client_bev k).1;
          })
          w
          path
          (waiting ++ rest)
  Received-Delivered s f w waiting rest path k server frame bev bev' d all silent r =
      let count : counted s.server.world (waiting ++ rest) ≡ counted w (waiting ++ rest) =
        ap (λ v. counted v (waiting ++ rest)) d.same_world in
      let room : s.server.world.space ≡ w.space = ap (λ (v : World). v.space) d.same_world in
      let moved = lv.sent_input s.client_bev k ∙ d.traffic.client_in in
      let gone = sent_all m lv s.client_bev k rest d.traffic.client_out all in
      record {
        stored = r.stored ∙ ap (λ n. some (take n (waiting ++ rest))) room;
        others = λ other ne. r.others other ne ∙ ap (λ (v : World). v.file other) d.same_world;
        left = Left-SameWorld d.same_world r.left;
        finished = λ h.
            let (status, out) = r.finished (omega (arith, count)) in
            record {
              status = status;
              server_in = r.read_all;
              server_out = out ∙ ap (λ o. o ++ request_bytes fin) silent;
              client_in = moved;
              client_out = gone;
            };
        asks_again = λ h.
            let (status, out) = r.asks_again (omega (arith, count)) in
            record {
              status = status;
              server_in = r.read_all;
              server_out = out ∙ ap (λ o. o ++ request_bytes file_data) silent;
              client_in = moved;
              client_out = gone;
            };
      }

  -- The piece that completes the data.
  pub piece_completes :
      (s : System l) (f : FileInfo) (w : World) (waiting rest : List ℕ) (k : ℕ) {path : List ℕ}
      → InData l s f w waiting rest
      → f.size ≡ length waiting + length rest
      → f.size < 2 ^ 64
      → text f.name ≡ ok path
      → CanWrite w path
      → 0 < length rest
      → length rest ≤ k
      → (s' : System l) × (step l m s (to_server k) ≡ ok s')
        × Delivered l s' w path (waiting ++ rest)
        × (s'.client ≡ s.client)
  piece_completes s f w waiting rest k {path} d size bound named can pos all =
      let t = d.traffic in
      let bev = l.arrived s.server_bev rest in
      let here : incoming l bev ≡ waiting ++ rest =
        lv.arrived_input s.server_bev rest ∙ ap (λ b. b ++ rest) t.server_in in
      let complete : length (incoming l bev) ≡ s.frame.size =
        ap length here
        ∙ length-append waiting rest
        ∙ sym size
        ∙ sym (ap (λ (g : FileInfo). g.size) d.on_stack) in
      let (server, frame, bev', ran, _, _, _, r) =
        read_cb-Received m lv s.server s.frame bev t.status complete
          (omega (arith, ap (λ (g : FileInfo). g.size) d.on_stack))
          (ap (λ (g : FileInfo). text g.name) d.on_stack ∙ named)
          (CanWrite-SameWorld d.same_world can) in
      (
        _,
        step-to_server m lv s k rest server frame bev'
            (ap (take k) t.client_out ∙ take_all k rest all) pos ran,
        Received-Delivered s f w waiting rest path k server frame bev bev' d all
            (lv.arrived_output s.server_bev rest ∙ t.server_out)
            (subst (λ b. Received l s.server server path b bev bev') here r),
        refl,
      )

  -- What is left after a piece, with what was there before.
  regrouped :
      (waiting rest : List ℕ) (k : ℕ) → (waiting ++ take k rest) ++ drop k rest ≡ waiting ++ rest
  regrouped waiting rest k =
      append_assoc waiting (take k rest) (drop k rest)
      ∙ ap (λ b. waiting ++ b) (take-append-drop k rest)

  -- While the data is on its way to a server whose stack holds a header with the data's size and a
  -- name that can be written: once pieces of at least a byte that make up all of the data have
  -- been delivered, the file holds the data as far as the disk has room, no other file has
  -- changed, the room is less by as many bytes, or none is left, and the rest of the server's
  -- environment as before, the client is as before, and the server has sent FIN if `fwrite`
  -- returned as many bytes in all as it was given and the request for the data if fewer.
  pub pieces_complete :
      (pieces : List ℕ) (s : System l) (f : FileInfo) (w : World) (waiting rest : List ℕ)
      {path : List ℕ}
      → InData l s f w waiting rest
      → f.size ≡ length waiting + length rest
      → f.size < 2 ^ 64
      → text f.name ≡ ok path
      → CanWrite w path
      → 0 < length rest
      → ArePieces pieces
      → total_of pieces ≡ length rest
      → (t : System l) × (run l m s (map to_server pieces) ≡ ok t)
        × Delivered l t w path (waiting ++ rest)
        × (t.client ≡ s.client)
  unfolding run
  pieces_complete [] s f w waiting rest d size bound named can pos pieces sum = absurd (omega arith)
  pieces_complete (k ∷ []) s f w waiting rest d size bound named can pos pieces sum =
      let (t, ran, delivered, same) =
        piece_completes s f w waiting rest k d size bound named can pos (omega arith) in
      (t, rw ran, delivered, same)
  pieces_complete (k ∷ k' ∷ ks) s f w waiting rest d size bound named can pos pieces sum =
      let (s', ran, d', same) =
        piece_waits s f w waiting rest k d (omega (arith, length-take k rest))
          (omega (arith, length-take k rest)) in
      let (t, runs, delivered, same') =
        pieces_complete (k' ∷ ks) s' f w (waiting ++ take k rest) (drop k rest) d'
          (omega
            (arith, length-append waiting (take k rest), length-take k rest, length-drop k rest))
          bound named can (omega (arith, length-drop k rest)) pieces.1
          (omega (arith, length-drop k rest)) in
      (t, rw ran runs, subst (Delivered l t w _) (regrouped waiting rest k) delivered, same' ∙ same)
