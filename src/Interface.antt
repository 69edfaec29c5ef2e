-- ===== src/Interface.antt =====
-- c/interface.h and c/interface.c: the request types, and the two threads that move a file into
-- an evbuffer and out of one.
pub mod Requests
pub mod Read
pub mod Write
use net_file_transfer.Base.{
  ℕ, zero, suc, ◌+◌, ◌%◌, ◌^◌, Bool, true, false, List, [], ◌∷◌, ◌++◌, Option, none, some, Outcome,
  ok, fault, aborted, out_of_fuel, ◌>>=◌, ◌>>◌, assert, assert_some, length, take, ltb, ◌==◌,
  bytes_eq, not, if◌then◌else◌, map,
}
use net_file_transfer.Memory.{text, strcpy, basename, strip_slashes}
use net_file_transfer.LibEvent.{LibEvent}
use net_file_transfer.OpenSsl.{Md5, md5_digest_length}
use net_file_transfer.Log.{Log, write_log, simplog_fatal, simplog_debug, number, string}
use net_file_transfer.FileInfo.{FileInfo}
use net_file_transfer.Stdio.{
  World, FileName, bufsiz, fopen_wb, fread, fwrite, fclose, Writing, new_writing,
}

-- `RequestType`. In memory it is an `unsigned int`, which may hold any value that comes off the
-- wire.
pub data RequestType : Type 0 where
  init head file_data fin : RequestType

unfoldable pub enum_value : RequestType → ℕ
enum_value init = 0
enum_value head = 1
enum_value file_data = 2
enum_value fin = 3

-- `struct write_arg`.
pub record WriteArg (l : LibEvent) : Type 0 where
  pub finfo : FileInfo
  pub buffer : l.EvBuffer

-- The literal that a case of the switch of `RequestInfo` copies, with its NUL.
unfoldable pub request_text : ℕ → Option (List ℕ)
request_text t =
    if t == 0
    then some (b'I' ∷ b'N' ∷ b'I' ∷ b'T' ∷ 0 ∷ [])
    else if t == 1
    then some (b'H' ∷ b'E' ∷ b'A' ∷ b'D' ∷ 0 ∷ [])
    else if t == 2
    then some (b'D' ∷ b'A' ∷ b'T' ∷ b'A' ∷ 0 ∷ [])
    else if t == 3
    then some (b'F' ∷ b'I' ∷ b'N' ∷ 0 ∷ [])
    else none

abbrev pub copy_literal : List ℕ → Option (List ℕ) → Outcome (List ℕ)
copy_literal str none = ok str
copy_literal str (some literal) = strcpy str literal

-- `RequestInfo(t)`: the global `__str`, which any other value leaves as it was.
unfoldable pub request_info : List ℕ → ℕ → Outcome (List ℕ)
unfolding request_text strcpy
request_info str t = copy_literal str (request_text t)

-- The digests are logged byte by byte after a mismatch.
log_digests : ℕ → ℕ → List ℕ → List ℕ → Log → Log
log_digests i zero info md log = log
log_digests i (suc left) [] md log = log
log_digests i (suc left) (a ∷ info) [] log = log
log_digests i (suc left) (a ∷ info) (b ∷ md) log =
    log_digests (i + 1) left info md
      (write_log simplog_debug "[%d]---原始:%2x,复原:%x" (number i ∷ number a ∷ number b ∷ []) log)

-- What `writefile` does once the loop is over: the value returned, and the log. A digest that
-- differs sets `ret`, which is not returned.
unfoldable pub verdict : ℕ → ℕ → List ℕ → List ℕ → Log → ℕ × Log
unfolding log_digests
verdict total len md info log =
    if not (total == len)
    then (1, write_log simplog_fatal "file write ERROR!" [] log)
    else if not (bytes_eq (take md5_digest_length md) (take md5_digest_length info))
    then (
      0,
      log_digests 0 md5_digest_length info md
          (write_log simplog_fatal "file content INCORRECT!" [] log),
    )
    else (0, log)

module _ (l : LibEvent) (m : Md5) where
  open l use {EvBuffer, evbuffer_get_length, evbuffer_add, evbuffer_remove}
  open m use {Md5Ctx, md5_init, md5_update, md5_final}

  -- What the loop of `readfile` carries.
  pub record ReadState : Type 0 where
    pub buf : EvBuffer
    pub ctx : Md5Ctx
    pub total : ℕ

  -- `while ((n = fread(...)) > 0) {...}`
  unfoldable pub read_loop : ℕ → List ℕ → ReadState → Outcome ReadState
  unfolding fread
  read_loop zero rest s = out_of_fuel
  read_loop (suc fuel) rest s =
      let (bytes, rest') = fread rest in
      let n = length bytes in
      let next = read_loop fuel rest' (record {
        buf = evbuffer_add s.buf bytes;
        ctx = md5_update s.ctx bytes;
        total = (s.total + n) % 2 ^ 64;
      }) in
      if ltb 0 n then next else ok s

  -- `readfile(args)`. A round of the loop takes at least a byte.
  unfoldable pub readfile : World → WriteArg l → Outcome (WriteArg l)
  readfile w args = do
    name ← text args.finfo.name
    content ← assert_some (w.file name)
    s ←
        read_loop (length content + 1) content
          (record { buf = args.buffer; ctx = md5_init; total = 0 })
    ok (record {
      finfo = record args.finfo { info = md5_final s.ctx; size = s.total };
      buffer = s.buf;
    })

  -- What the loop of `writefile` carries.
  pub record DrainState : Type 0 where
    pub buf : EvBuffer
    pub ctx : Md5Ctx
    pub fp : Writing
    pub total : ℕ

  -- `while ((n = evbuffer_remove(...)) > 0) {...}`
  unfoldable pub write_loop : ℕ → DrainState → Outcome DrainState
  unfolding fwrite
  write_loop zero s = out_of_fuel
  write_loop (suc fuel) s =
      let (bytes, buf') = evbuffer_remove s.buf bufsiz in
      let (accepted, fp') = fwrite s.fp bytes in
      let next = write_loop fuel (record {
        buf = buf';
        ctx = md5_update s.ctx bytes;
        fp = fp';
        total = (s.total + accepted) % 2 ^ 64;
      }) in
      if ltb 0 (length bytes) then next else ok (record s { buf = buf' })

  -- `writefile(args)`. `basename` takes the trailing slashes off the name in the header.
  unfoldable pub writefile : World → WriteArg l → Outcome (ℕ × World × WriteArg l)
  writefile w args = do
    path ← text args.finfo.name
    let filename = basename path
    name ← strcpy args.finfo.name (strip_slashes path ++ 0 ∷ [])
    w₁ ← assert_some (fopen_wb w filename)
    let len = evbuffer_get_length args.buffer
    assert w₁.malloc
    s ←
        write_loop (len + 1)
          (record { buf = args.buffer; ctx = md5_init; fp = new_writing w₁; total = 0 })
    let w₂ = fclose w₁ filename s.fp
    let (ret, log') = verdict s.total len (md5_final s.ctx) args.finfo.info w₂.log
    ok (
      ret,
      record w₂ { log = log' },
      record { finfo = record args.finfo { name = name }; buffer = s.buf },
    )
