-- ===== src/Cpp/Server/Rounds.antt =====
-- The rounds in which `handle_write_file` is called.
use net_file_transfer.Base.{
  ℕ, ◌+◌, ◌-◌, ◌*◌, ◌/◌, ◌%◌, ◌^◌, ◌<◌, ◌≤◌, ◌≡◌, refl, sym, ap, ◌∙◌, List, [], ◌∷◌, ◌++◌, some,
  none, ok, length, take, drop, take-add, take-append-drop, length-drop, lt→ltb, arith,
  if◌then◌else◌,
}
use net_file_transfer.Stdio.{bufsiz, fwrite, fwritten, stored}
use net_file_transfer.Stdio.Counts.{chunks}
use net_file_transfer.Log.{number}
use net_file_transfer.Asio.{Asio, ErrorCode, success, eof, failure}
use net_file_transfer.Cpp.{debug, is_eof}
use net_file_transfer.Cpp.Server.{
  File, Connection, nothing, write_file, print, write_received, close_file, handle_error,
  finish_file, write_more, handle_write_file, complete,
}

-- What reaches the file of a stream that ends so: all of it at the end of the stream, and only full
-- buffers on another error.
unfoldable pub kept : ErrorCode → List ℕ → List ℕ
kept end content = if is_eof end then content else take (length content / bufsiz * bufsiz) content

pub kept-eof : (content : List ℕ) → kept eof content ≡ content
unfolding kept
kept-eof content = refl

-- A stream with a full buffer at its front.
full_buffers :
    (content : List ℕ)
    → bufsiz ≤ length content
    → take (length content / bufsiz * bufsiz) content
      ≡ take bufsiz content
        ++ take (length (drop bufsiz content) / bufsiz * bufsiz) (drop bufsiz content)
full_buffers content h =
    let n : length content / bufsiz * bufsiz
        ≡ bufsiz + length (drop bufsiz content) / bufsiz * bufsiz =
      omega (arith, length-drop bufsiz content) in
    ap (λ k. take k content) n
    ∙ take-add bufsiz (length (drop bufsiz content) / bufsiz * bufsiz) content

pub kept_full :
    (end : ErrorCode) (content : List ℕ)
    → bufsiz ≤ length content
    → kept end content ≡ take bufsiz content ++ kept end (drop bufsiz content)
unfolding kept
kept_full success content h = full_buffers content h
kept_full eof content h = sym (take-append-drop bufsiz content)
kept_full (failure n) content h = full_buffers content h

pub kept_none : (n : ℕ) (content : List ℕ) → length content < bufsiz → kept (failure n) content ≡ []
unfolding kept
kept_none n content h =
    let zero' : length content / bufsiz * bufsiz ≡ 0 = omega arith in ap (λ k. take k content) zero'

-- What `fclose` leaves, and what was counted.
pub record Stored (io : Asio) (c c' : Connection io) (fp : File) (bytes : List ℕ) : Type 0 where
  pub world :
      c'.world
      ≡ stored c.world fp.name
          (fp.writing.written ++ take fp.writing.space bytes)
          (fp.writing.space - length bytes)
  pub counted :
      c'.filesize ≡ (c.filesize + fwritten fp.writing (chunks (length bytes + 1) bytes)) % 2 ^ 64
  pub closed : c'.fp ≡ none
  pub same_filename : c'.filename ≡ c.filename

-- The file and the connection after a full buffer.
abbrev pub next_file : File → List ℕ → File
next_file fp bytes = record fp { writing = (fwrite fp.writing bytes).1 }

module _ {io : Asio} where
  abbrev pub received : Connection io → io.Socket → ℕ → Connection io
  received c socket n = print io (debug "recv:" (number n ∷ [])) (record c { socket = socket })

  abbrev pub next_round : Connection io → io.Socket → File → List ℕ → Connection io
  next_round c socket fp bytes = record (received c socket (length bytes)) {
    fp = some (next_file fp bytes);
    filesize = (c.filesize + (fwrite fp.writing bytes).0) % 2 ^ 64;
  }

  pub full_round :
      (c : Connection io) (fp : File) (bytes : List ℕ)
      → c.fp ≡ some fp
      → (io.async_read c.socket c.bufsize).0 ≡ success
      → (io.async_read c.socket c.bufsize).1 ≡ bytes
      → 0 < length bytes
      → complete io write_file c
        ≡ ok (next_round c (io.async_read c.socket c.bufsize).2 fp bytes, write_file)
  unfolding complete handle_write_file write_more write_received
  full_round c fp bytes opened no_error got pos =
      rw (opened, no_error, got, lt→ltb 0 (length bytes) pos)

  pub last_round :
      (c : Connection io) (fp : File) (bytes : List ℕ)
      → c.fp ≡ some fp
      → (io.async_read c.socket c.bufsize).0 ≡ eof
      → (io.async_read c.socket c.bufsize).1 ≡ bytes
      → complete io write_file c
        ≡ ok (
          finish_file io bytes fp (received c (io.async_read c.socket c.bufsize).2 (length bytes)),
          nothing,
        )
  unfolding complete handle_write_file finish_file
  last_round c fp bytes opened at_end got = rw (opened, at_end, got)

  pub failed_round :
      (c : Connection io) (fp : File) (bytes : List ℕ) (n : ℕ)
      → c.fp ≡ some fp
      → (io.async_read c.socket c.bufsize).0 ≡ failure n
      → (io.async_read c.socket c.bufsize).1 ≡ bytes
      → complete io write_file c
        ≡ ok (
          close_file io fp (
              handle_error io "handle_write_file"
                (failure n)
                (received c (io.async_read c.socket c.bufsize).2 (length bytes))),
          nothing,
        )
  unfolding complete handle_write_file
  failed_round c fp bytes n opened failed got = rw (opened, failed, got)
