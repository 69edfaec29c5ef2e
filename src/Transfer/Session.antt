-- ===== src/Transfer/Session.antt =====
-- A whole session, from the connection to the last word.
use net_file_transfer.Base.{
  ℕ, ◌<◌, ◌≤◌, ◌≡◌, ◌≢◌, sym, ap, subst, ◌∙◌, List, [], ◌∷◌, map, ok, some, length, take, take_all,
  length-take, arith,
}
use net_file_transfer.Memory.{basename}
use net_file_transfer.LibEvent.{LibEvent, IsLibEvent}
use net_file_transfer.OpenSsl.{Md5, IsMd5}
use net_file_transfer.FileInfo.{FileInfo, sizeof_fileinfo}
use net_file_transfer.Stdio.{World, SameWorld, new_writing}
use net_file_transfer.Stdio.Counts.{Hides, counted, counted_fits, counted_hiding}
use net_file_transfer.Stdio.Files.{Left, Left-SameWorld}
use net_file_transfer.Interface.{init, head, fin, enum_value}
use net_file_transfer.Server.{Server, request_bytes}
use net_file_transfer.Server.Receive.{CanWrite}
use net_file_transfer.Client.{Client, freed}
use net_file_transfer.Client.Answer.{CanSend, Holds, Describes}
use net_file_transfer.Transfer.{System, to_server, to_client, run, run-append, opening, session}
use net_file_transfer.Transfer.Steps.{Traffic}
use net_file_transfer.Transfer.Messages.{header_sent, header_received, data_sent, last_word}
use net_file_transfer.Transfer.Data.{InData, ArePieces, total_of, pieces_complete}

pub same_through : {a b c d : World} → b ≡ a → SameWorld b c → d ≡ c → SameWorld a d
same_through {a} {b} {c} {d} e same e' =
    subst (λ v. SameWorld a v) (sym e') (subst (λ v. SameWorld v c) e same)

module _ {l : LibEvent} {m : Md5} (lv : IsLibEvent l) (mv : IsMd5 m) where
  -- Both sides after a session with so many bytes of data: the file is there under its base name
  -- with the part that was stored, no other file of the server's has changed, the server is done,
  -- the client has freed its buffer and forgotten the request, and nothing is on its way.
  pub record Finished (w : World) (outfile part : List ℕ) (n : ℕ) (t : System l) : Type 0 where
    pub stored : t.server.world.file (basename outfile) ≡ some part
    pub others :
        (other : List ℕ) → other ≢ basename outfile → t.server.world.file other ≡ w.file other
    pub left : Left n w t.server.world
    pub traffic : Traffic l t fin [] [] []
    pub given_back : t.client.buf ≡ freed
    pub over : t.client.status ≡ enum_value init

  -- All of the file was stored.
  abbrev pub Transferred : World → List ℕ → List ℕ → System l → Type 0
  Transferred w outfile content t = Finished w outfile content (length content) t

  -- The log does not matter.
  pub Transferred-SameWorld :
      {w v : World} {outfile content : List ℕ} {t : System l}
      → SameWorld w v
      → Transferred v outfile content t
      → Transferred w outfile content t
  Transferred-SameWorld same d = record {
    stored = d.stored;
    others = λ other ne. d.others other ne ∙ ap (λ (u : World). u.file other) same;
    left = Left-SameWorld same d.left;
    traffic = d.traffic;
    given_back = d.given_back;
    over = d.over;
  }

  -- What has to hold when the client connects.
  pub record Ready (s : System l) (infile outfile content : List ℕ) : Type 0 where
    pub traffic : Traffic l s head [] (request_bytes head) []
    pub can_send : CanSend l s.client s.scratch infile outfile content
    pub can_write : CanWrite s.server.world outfile

  -- The session up to the data.
  pub up_to_data :
      (s : System l) {infile outfile content : List ℕ}
      → Ready s infile outfile content
      → (t : System l) × (f : FileInfo) × (run l m s
            (to_client 4 ∷ to_server sizeof_fileinfo ∷ to_client 4 ∷ [])
          ≡ ok t)
        × InData l t f s.server.world [] content
        × Describes m f outfile content
        × Holds l t.client.buf []
        × (length t.client.str ≡ 5)
  unfolding run
  up_to_data s {infile} {outfile} {content} r =
      let (s₁, f, ran₁, v₁, describes, held₁, five₁, server₁) =
        header_sent lv mv s r.traffic r.can_send in
      let (s₂, ran₂, v₂, frame₂, world₂, client₂) = header_received lv mv s₁ f v₁ describes in
      let (s₃, ran₃, v₃, held₃, five₃, server₃, frame₃) =
        data_sent lv mv s₂ [] v₂
          (subst (λ (c : Client l). Holds l c.buf content) (sym client₂) held₁)
          (ap (λ (c : Client l). length c.str) client₂ ∙ five₁) in
      (
        s₃,
        f,
        rw (ran₁, ran₂, ran₃),
        record {
          traffic = v₃;
          on_stack = frame₃ ∙ frame₂;
          same_world =
              same_through (ap (λ (v : Server). v.world) server₁) world₂
                (ap (λ (v : Server). v.world) server₃);
        },
        describes,
        held₃,
        five₃,
      )

  -- Whatever the disk has room for, if `fwrite` returns as many bytes as it is given.
  session-Finished :
      (s : System l) (pieces : List ℕ) {infile outfile content : List ℕ}
      → Ready s infile outfile content
      → 0 < length content
      → counted s.server.world content ≡ length content
      → ArePieces pieces
      → total_of pieces ≡ length content
      → (t : System l) × (run l m s (session pieces) ≡ ok t)
        × Finished s.server.world outfile (take s.server.world.space content) (length content) t
  unfolding session run
  session-Finished s pieces {infile} {outfile} {content} r pos all positive sum =
      let (s₁, f, ran₁, d, describes, held, five) = up_to_data s r in
      let (s₂, ran₂, delivered, same) =
        pieces_complete m lv pieces s₁ f s.server.world [] content d
          (omega (arith, describes.sized)) describes.valid.size_bound describes.named r.can_write
          pos positive sum in
      let (t, ran₃, v, given_back, over, server) =
        last_word lv mv s₂ (delivered.finished all)
          (subst (λ (c : Client l). Holds l c.buf []) (sym same) held)
          (ap (λ (c : Client l). length c.str) same ∙ five) in
      (
        t,
        run-append l m s opening _ ran₁
            ∙ run-append l m s₁ (map to_server pieces) (to_client 4 ∷ []) ran₂
            ∙ rw ran₃,
        record {
          stored = ap (λ (v : Server). v.world.file (basename outfile)) server ∙ delivered.stored;
          others = λ other ne.
              ap (λ (v : Server). v.world.file other) server ∙ delivered.others other ne;
          left =
              subst (λ (v : Server). Left (length content) s.server.world v.world) (sym server)
                delivered.left;
          traffic = v;
          given_back = given_back;
          over = over;
        },
      )

  -- A connected client and server with a file of at least one byte, room for it on the server's
  -- disk, names that end within their arrays and an environment that lets both work: if the header
  -- and the requests arrive whole and the header stays on the server's stack, then, however the
  -- data is cut into pieces of at least a byte, the run returns and ends with the file stored
  -- whole under its base name, no other file of the server's changed, the room less by the bytes
  -- of the file and the rest of the server's environment as before, the server at FIN with nothing
  -- on its way, and the client with its buffer freed and its request reset.
  pub session-Transferred :
      (s : System l) (pieces : List ℕ) {infile outfile content : List ℕ}
      → Ready s infile outfile content
      → 0 < length content
      → length content ≤ s.server.world.space
      → ArePieces pieces
      → total_of pieces ≡ length content
      → (t : System l) × (run l m s (session pieces) ≡ ok t)
        × Transferred s.server.world outfile content t
  session-Transferred s pieces {outfile} {content} r pos room positive sum =
      let (t, ran, d) =
        session-Finished s pieces r pos (counted_fits s.server.world content room) positive sum in
      (
        t,
        ran,
        subst (λ part. Finished s.server.world outfile part (length content) t)
            (take_all s.server.world.space content room) d,
      )

  -- The same session without room for the file on the server's disk and with an `fwrite` that
  -- accepts what it is given, as its buffer does for a small file: since nothing looks at what
  -- `fclose` returns, the run ends as if all were well, the server at FIN and the client with its
  -- request reset, while only the part of the file that fits is stored.
  pub session-cut :
      (s : System l) (pieces : List ℕ) {infile outfile content : List ℕ}
      → Ready s infile outfile content
      → Hides (new_writing s.server.world)
      → s.server.world.space < length content
      → ArePieces pieces
      → total_of pieces ≡ length content
      → (t : System l) × (run l m s (session pieces) ≡ ok t)
        × Finished s.server.world outfile (take s.server.world.space content) (length content) t
        × (length (take s.server.world.space content) < length content)
  session-cut s pieces {content} r hides full positive sum =
      let (t, ran, d) =
        session-Finished s pieces r (omega arith) (counted_hiding s.server.world content hides)
          positive sum in
      (t, ran, d, omega (arith, length-take s.server.world.space content))
