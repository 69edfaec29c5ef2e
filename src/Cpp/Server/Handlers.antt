-- ===== src/Cpp/Server/Handlers.antt =====
-- `AsyncTcpConnection` in cpp/server.cc against any connection: no handler is called in a state that
-- it cannot deal with, and only the file that was announced is written.
use net_file_transfer.Base.{
  ℕ, zero, suc, ◌≤◌, ◌≡◌, ◌≢◌, refl, sym, ap, ◌∙◌, subst, true, List, [], ◌∷◌, ◌++◌, Option, some,
  none, ok, Safe, Safe-bind, arith, assert_some, length, ltb, ltb→lt, not_ltb→le, take, drop,
  length-take, append-nil, drop_all, Bool-cases, inl, inr,
}
use net_file_transfer.Memory.{text}
use net_file_transfer.Stdio.{World, FileName, Writing, fopen_wb, fclose}
use net_file_transfer.Stdio.Files.{opened_inv, put_file_other}
use net_file_transfer.Asio.{Asio, IsAsio, ErrorCode, success, eof, failure}
use net_file_transfer.Cpp.Header.{max_filename_len, decode_fileinfo}
use net_file_transfer.Cpp.Server.{
  File, Connection, Pending, nothing, read_request, write_file, receive_into, open_file,
  handle_error, handle_read_request, write_received, finish_file, write_more, handle_write_file,
  complete, is_nothing, service_run,
}

-- No file but that of the name differs.
abbrev pub OnlyNamed : FileName → World → World → Type 0
OnlyNamed name w w' = (other : FileName) → other ≢ name → w'.file other ≡ w.file other

abbrev IsFileOf : FileName → Option File → Type 0
IsFileOf name none = ⊥
IsFileOf name (some fp) = fp.name ≡ name

module _ {io : Asio} (v : IsAsio io) where
  -- If the stream has room for an array, this name stands in it.
  abbrev pub Announces : List ℕ → io.Socket → Type 0
  Announces filename socket =
      max_filename_len ≤ length (io.incoming socket)
      → decode_fileinfo (take max_filename_len (io.incoming socket)) ≡ ok filename

module _ {io : Asio} (v : IsAsio io) (w : World) (filename name : List ℕ)
    (named : text (filename ++ 0 ∷ []) ≡ ok name) where
  -- What the operation under way relies on.
  abbrev Holds : Connection io → Pending → Type 0
  Holds c nothing = OnlyNamed name w c.world × (c.fp ≡ none)
  Holds c read_request =
      OnlyNamed name w c.world
      × (c.fp ≡ none)
      × (length c.info ≡ max_filename_len)
      × Announces v filename c.socket
  Holds c write_file = OnlyNamed name w c.world × IsFileOf name c.fp

  abbrev HoldsOf : Connection io × Pending → Type 0
  HoldsOf r = Holds r.0 r.1

  receive_into-Holds :
      (c : Connection io) (o : Option World)
      → OnlyNamed name w c.world
      → c.fp ≡ none
      → ((w' : World) → o ≡ some w' → OnlyNamed name w w')
      → HoldsOf (receive_into io name c o)
  unfolding receive_into
  receive_into-Holds c none only closed opens = (only, closed)
  receive_into-Holds c (some w') only closed opens = (opens w' refl, refl)

  fopen_wb-OnlyNamed :
      (w₁ w₂ : World) → OnlyNamed name w w₁ → fopen_wb w₁ name ≡ some w₂ → OnlyNamed name w w₂
  fopen_wb-OnlyNamed w₁ w₂ only e =
      subst (OnlyNamed name w) (opened_inv w₁ w₂ name (ap assert_some e))
        (λ other ne. put_file_other w₁.file name other [] ne ∙ only other ne)

  fclose-OnlyNamed :
      (w₁ : World) (path : FileName) (writing : Writing)
      → path ≡ name
      → OnlyNamed name w w₁
      → OnlyNamed name w (fclose w₁ path writing)
  unfolding fclose
  fclose-OnlyNamed w₁ path writing e only other ne =
      put_file_other w₁.file path other writing.written (λ e'. ne (e' ∙ e)) ∙ only other ne

  write_more-Holds :
      (bytes : List ℕ) (fp : File) (c : Connection io)
      → fp.name ≡ name
      → OnlyNamed name w c.world
      → c.fp ≡ some fp
      → HoldsOf (write_more io bytes fp c, write_file)
  unfolding write_more write_received
  write_more-Holds bytes fp c e only open' = elim (Bool-cases (ltb 0 (length bytes))) [
    | inl some' ↦ rw some' (only, e)
    | inr none' ↦ rw (none', open') (only, e)
  ]

  handle_write_file-Safe :
      (err : ErrorCode) (bytes : List ℕ) (c : Connection io) (fp : Option File)
      → IsFileOf name fp
      → OnlyNamed name w c.world
      → Safe HoldsOf (handle_write_file io err bytes (record c { fp = fp }))
  unfolding handle_write_file finish_file write_received handle_error
  handle_write_file-Safe err bytes c none is_open only = absurd is_open
  handle_write_file-Safe success bytes c (some fp) is_open only =
      write_more-Holds bytes fp _ is_open only refl
  handle_write_file-Safe eof bytes c (some fp) is_open only =
      (fclose-OnlyNamed c.world fp.name _ is_open only, refl)
  handle_write_file-Safe (failure n) bytes c (some fp) is_open only =
      (fclose-OnlyNamed c.world fp.name fp.writing is_open only, refl)

  handle_read_request-Safe :
      (err : ErrorCode) (c : Connection io)
      → (err ≡ success → decode_fileinfo c.info ≡ ok filename)
      → OnlyNamed name w c.world
      → c.fp ≡ none
      → Safe HoldsOf (handle_read_request io err c)
  unfolding handle_read_request handle_error open_file
  handle_read_request-Safe success c announced only closed =
      rw (announced refl, named)
        (receive_into-Holds _ (fopen_wb c.world name) only closed
          (λ w' e. fopen_wb-OnlyNamed c.world w' only e))
  handle_read_request-Safe eof c announced only closed = (only, closed)
  handle_read_request-Safe (failure n) c announced only closed = (only, closed)

  -- What a read of the array that succeeds leaves in it.
  announced_array :
      (socket : io.Socket) (info : List ℕ)
      → length info ≡ max_filename_len
      → Announces v filename socket
      → (io.async_read socket max_filename_len).0 ≡ success
      → let bytes = (io.async_read socket max_filename_len).1 in
        decode_fileinfo (bytes ++ drop (length bytes) info) ≡ ok filename
  announced_array socket info size announces e =
      elim (Bool-cases (ltb (length (io.incoming socket)) max_filename_len)) [
        | inl short ↦
            let (ended, _) = v.read_rest socket max_filename_len (ltb→lt _ _ short) in
            absurd (v.ending_ne_success socket (sym ended ∙ e))
        | inr full ↦
            let room = not_ltb→le (length (io.incoming socket)) max_filename_len full in
            let (_, got, _, _) = v.read_full socket max_filename_len room in
            let array = take max_filename_len (io.incoming socket) in
            let all : drop (length array) info ≡ [] =
              drop_all (length array) info
                (omega (arith, size, length-take max_filename_len (io.incoming socket))) in
            rw (got, all, append-nil array) (announces room)
      ]

  complete-Safe :
      (next : Pending) (c : Connection io) → Holds c next → Safe HoldsOf (complete io next c)
  unfolding complete
  complete-Safe nothing c h = h
  complete-Safe read_request c (only, closed, size, announces) =
      handle_read_request-Safe _ _ (announced_array c.socket c.info size announces) only closed
  complete-Safe write_file c (only, is_open) =
      handle_write_file-Safe _ _ (record c { socket = (io.async_read c.socket c.bufsize).2 }) c.fp
        is_open only

  -- What is left of a connection.
  abbrev pub Over : Connection io → Type 0
  Over c = OnlyNamed name w c.world × (c.fp ≡ none)

  Holds-Over :
      (next : Pending) (c : Connection io) → is_nothing io next ≡ true → Holds c next → Over c
  Holds-Over nothing c done h = h
  Holds-Over read_request c done h = cc
  Holds-Over write_file c done h = cc

  pub service_run-Safe :
      (fuel : ℕ) (next : Pending) (c : Connection io)
      → Holds c next
      → Safe Over (service_run io fuel next c)
  unfolding service_run
  service_run-Safe zero next c h = elim (Bool-cases (is_nothing io next)) [
    | inl done ↦ rw done (Holds-Over next c done h)
    | inr more ↦ rw more tt
  ]
  service_run-Safe (suc fuel) next c h = elim (Bool-cases (is_nothing io next)) [
    | inl done ↦ rw done (Holds-Over next c done h)
    | inr more ↦ rw more (
        Safe-bind HoldsOf Over (complete io next c) _ (complete-Safe next c h)
          (λ r holds. service_run-Safe fuel r.1 r.0 holds))
  ]
