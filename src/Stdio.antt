-- ===== src/Stdio.antt =====
-- The files that the programs open, as the C library's stdio serves them, and the rest of the
-- world around a process: whether `malloc` gives memory, what `pthread_create` and `pthread_join`
-- return, and the log.
pub mod Files
pub mod Counts
use net_file_transfer.Base.{
  ℕ, ◌+◌, ◌-◌, Bool, true, false, List, [], ◌∷◌, ◌++◌, Option, none, some, length, take, drop, min,
  ltb, bytes_eq, ◌≡◌, if◌then◌else◌,
}
use net_file_transfer.Log.{Log}

-- A name as it is passed to `fopen`, without its NUL.
abbrev pub FileName : Type 0
FileName = List ℕ

-- `space` is the number of bytes that the disk still has room for. stdio buffers what it is given, so
-- that it may accept more: `fwrite_short room given n` is what `fwrite` of n bytes returns when they do
-- not fit, on a file that was opened with that room and has been given so many bytes before.
pub record World : Type 0 where
  pub file : FileName → Option (List ℕ)
  pub writable : FileName → Bool
  pub space : ℕ
  pub fwrite_short : ℕ → ℕ → ℕ → ℕ
  pub malloc : Bool
  pub pthread_create : ℕ
  pub pthread_join : ℕ
  pub log : Log

-- Nothing but the log differs.
abbrev pub SameWorld : World → World → Type 0
SameWorld w w' = record w' { log = w.log } ≡ w

-- `BUFSIZ` of glibc.
abbrev pub bufsiz : ℕ
bufsiz = 8192

unfoldable pub put_file :
    (FileName → Option (List ℕ)) → FileName → List ℕ → FileName → Option (List ℕ)
put_file files name bytes other = if bytes_eq name other then some bytes else files other

-- `fopen(name, "wb")`: the file is there and empty, or NULL.
unfoldable pub fopen_wb : World → FileName → Option World
unfolding put_file
fopen_wb w name =
    if w.writable name then some (record w { file = put_file w.file name [] }) else none

-- A file that is open for writing: what of the bytes given so far fits on the disk, the room beside
-- them, how many bytes were given, and what `fwrite` returns for bytes that do not fit.
pub record Writing : Type 0 where
  pub written : List ℕ
  pub space : ℕ
  pub given : ℕ
  pub short : ℕ → ℕ → ℕ

-- The `FILE` that `fopen` gives.
abbrev pub new_writing : World → Writing
new_writing w = record { written = []; space = w.space; given = 0; short = w.fwrite_short w.space }

-- `fwrite(data, 1, n, fp)`: the number returned, and the file. Bytes that fit are all accepted; of
-- others at most n are, those that stay in the buffer and are lost at `fclose` among them.

unfoldable pub fwrite : Writing → List ℕ → ℕ × Writing
fwrite fp bytes =
    let n = length bytes in
    let fitting = min n fp.space in
    (
      if ltb fp.space n then min n (fp.short fp.given n) else n,
      record fp {
        written = fp.written ++ take fitting bytes;
        space = fp.space - fitting;
        given = fp.given + n;
      },
    )

-- What `fwrite` returns for one piece after another, in all.
abbrev pub fwritten : Writing → List (List ℕ) → ℕ
fwritten fp [] = 0
fwritten fp (bytes ∷ pieces) = (fwrite fp bytes).0 + fwritten (fwrite fp bytes).1 pieces

-- The world once a file has been written to the disk and so much room is left.
abbrev pub stored : World → FileName → List ℕ → ℕ → World
stored w name bytes space = record w { file = put_file w.file name bytes; space = space }

-- `fclose(fp)`: the file holds what fits. That something was lost shows only in the value
-- returned, which no program looks at.
unfoldable pub fclose : World → FileName → Writing → World
unfolding put_file
fclose w name fp = stored w name fp.written fp.space

-- `fread(data, 1, BUFSIZ, fp)` with `rest` of the file unread.
unfoldable pub fread : List ℕ → List ℕ × List ℕ
fread rest = (take bufsiz rest, drop bufsiz rest)
