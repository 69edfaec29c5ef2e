-- ===== src/Cpp/Server/Accept.antt =====
-- A whole connection: from the accept to the closed file.
use net_file_transfer.Base.{
  ℕ, zero, suc, ◌+◌, ◌-◌, ◌%◌, ◌^◌, ◌<◌, ◌≤◌, ◌≡◌, ◌≢◌, refl, ap, ◌∙◌, true, List, [], ◌∷◌, ◌++◌,
  some, none, ok, length, take, drop, drop_all, take-append, drop-append, length-append, arith,
  append-nil, subst,
}
use net_file_transfer.Memory.{text}
use net_file_transfer.Log.{string}
use net_file_transfer.Stdio.{World, new_writing, stored}
use net_file_transfer.Stdio.Counts.{counted}
use net_file_transfer.Stdio.Files.{opened, fopen_wb_ok, stored_self, stored_other}
use net_file_transfer.Asio.{Asio, IsAsio, ErrorCode, success}
use net_file_transfer.Cpp.{debug}
use net_file_transfer.Cpp.Header.{max_filename_len, decode_fileinfo}
use net_file_transfer.Cpp.Server.{
  File, Connection, Pending, read_request, write_file, print, open_file, handle_read_request,
  complete, service_run, start, new_connection, async_tcp_server,
}
use net_file_transfer.Cpp.Server.Rounds.{kept, Stored}
use net_file_transfer.Cpp.Server.Receive.{service_run-Stored}

-- The file as `fopen` leaves it.
abbrev new_file : World → List ℕ → File
new_file w name = record { name = name; writing = new_writing w }

-- The connection once the name has been read.
abbrev named : {io : Asio} → Connection io → io.Socket → List ℕ → List ℕ → List ℕ → Connection io
named {io} c socket info filename name =
    record (print io (debug "filename:" (string filename ∷ []))
      (record c { info = info; socket = socket; filename = filename })) {
        world = opened c.world name;
        fp = some (new_file c.world name);
      }

module _ {io : Asio} (v : IsAsio io) where
  open_file-named :
      (c : Connection io) (name : List ℕ)
      → c.world.writable name ≡ true
      → open_file io name c
        ≡ (record c { world = opened c.world name; fp = some (new_file c.world name) }, write_file)
  unfolding open_file
  open_file-named c name can = rw (fopen_wb_ok c.world name can)

  -- The array of the name is read whole.
  request_round :
      (fuel : ℕ) (c : Connection io) (info content filename name : List ℕ)
      → io.incoming c.socket ≡ info ++ content
      → length info ≡ max_filename_len
      → length c.info ≡ max_filename_len
      → decode_fileinfo info ≡ ok filename
      → text (filename ++ 0 ∷ []) ≡ ok name
      → c.world.writable name ≡ true
      → service_run io (suc fuel) read_request c
        ≡ service_run io fuel write_file
            (named c (io.async_read c.socket max_filename_len).2 info filename name)
  unfolding service_run complete handle_read_request
  request_round fuel c info content filename name here size array decoded told can =
      let enough : max_filename_len ≤ length (io.incoming c.socket) =
        omega (arith, ap length here, length-append info content, size) in
      let (no_error, got, _, _) = v.read_full c.socket max_filename_len enough in
      let whole : (io.async_read c.socket max_filename_len).1 ≡ info =
        got ∙ ap (take max_filename_len) here ∙ take-append max_filename_len info content size in
      let filled : info ++ drop (length info) c.info ≡ info =
        ap (λ b. info ++ b) (drop_all (length info) c.info (omega (arith, size, array)))
        ∙ append-nil info in
      rw (no_error, whole, filled, decoded, told)
        (ap (λ (r : Connection io × Pending). service_run io fuel r.1 r.0)
          (open_file-named
            (print io (debug "filename:" (string filename ∷ [])) (record c {
              info = info;
              socket = (io.async_read c.socket max_filename_len).2;
              filename = filename;
            }))
            name can))

-- A connection that is over: the file of that name holds what the disk had room for of the bytes,
-- no other file has changed, what `fwrite` returned is counted, and the file is closed.
pub record FileReceived (io : Asio) (w : World) (name bytes : List ℕ) (c : Connection io)
    : Type 0 where
  pub stored : c.world.file name ≡ some (take w.space bytes)
  pub others : (other : List ℕ) → other ≢ name → c.world.file other ≡ w.file other
  pub filesize : c.filesize ≡ counted w bytes % 2 ^ 64
  pub closed : c.fp ≡ none

module _ {io : Asio} (v : IsAsio io) where
  Stored-FileReceived :
      (w : World) (c c' : Connection io) (name bytes : List ℕ)
      → c.world ≡ opened w name
      → c.filesize ≡ 0
      → Stored io c c' (new_file w name) bytes
      → FileReceived io w name bytes c'
  Stored-FileReceived w c c' name bytes same none' d =
      let left = w.space - length bytes in
      let world : c'.world ≡ stored (opened w name) name (take w.space bytes) left =
        d.world ∙ ap (λ u. stored u name (take w.space bytes) left) same in
      record {
        stored =
            ap (λ (u : World). u.file name) world ∙ stored_self w name (take w.space bytes) left;
        others = λ other ne.
            ap (λ (u : World). u.file other) world
            ∙ stored_other w name (take w.space bytes) left other ne;
        filesize = omega (arith, d.counted, none');
        closed = d.closed;
      }

  -- If a connection brings the array of a name, in which `decode_fileinfo` finds a name that can
  -- be written, and then some content, then with more fuel than the content's bytes and one the
  -- server's run ends: the file of that name holds, as far as the disk has room, all of the
  -- content if the stream then ends, and only its full buffers if it ends with another error,
  -- what `fwrite` returned for these bytes, full buffers
  -- and then the rest, is counted modulo 2^64, be it stored or not, the file is closed, no other file has changed, and the
  -- connections that follow are not accepted.
  pub async_tcp_server-FileReceived :
      (fuel : ℕ) (array : List ℕ) (w : World) (socket : io.Socket)
      (others : List (ErrorCode × io.Socket)) (info content filename name : List ℕ)
      → io.incoming socket ≡ info ++ content
      → length info ≡ max_filename_len
      → length array ≡ max_filename_len
      → decode_fileinfo info ≡ ok filename
      → text (filename ++ 0 ∷ []) ≡ ok name
      → w.writable name ≡ true
      → length content + 1 < fuel
      → (c : Connection io) × (async_tcp_server io fuel array w ((success, socket) ∷ others)
          ≡ ok (record { connection = some c; unaccepted = others }))
        × FileReceived io w name (kept (io.ending socket) content) c
  unfolding async_tcp_server
  async_tcp_server-FileReceived zero array w socket others info content filename name here size full
        decoded told can enough =
      absurd (omega arith)
  async_tcp_server-FileReceived (suc fuel) array w socket others info content filename name here
        size full decoded told can enough =
      let c = (start io (new_connection io array socket w)).0 in
      let (_, _, left, same) =
        v.read_full socket max_filename_len
          (omega (arith, ap length here, length-append info content, size)) in
      let c₁ = named c (io.async_read socket max_filename_len).2 info filename name in
      let (c', ran, d) =
        service_run-Stored v fuel content c₁ (new_file w name)
          (left ∙ ap (drop max_filename_len) here ∙ drop-append max_filename_len info content size)
          refl refl (omega arith) (omega arith) in
      (
        c',
        rw (request_round v fuel c info content filename name here size full decoded told can, ran),
        Stored-FileReceived w c₁ c' name _ refl refl
            (subst (λ e. Stored io c₁ c' (new_file w name) (kept e content)) same d),
      )
