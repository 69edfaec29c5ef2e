-- ===== src/Interface/Write.antt =====
-- What `writefile` takes out of the evbuffer and leaves in the file.
use net_file_transfer.Base.{
  ℕ, zero, suc, ◌+◌, ◌-◌, ◌%◌, ◌^◌, ◌≤◌, ◌<◌, ◌≡◌, ◌≢◌, ◌↔◌, refl, sym, ap, ◌∙◌, List, [], ◌∷◌,
  ◌++◌, some, ok, foldl, length, take, drop, length-take, length-drop, take-append-drop, lt→ltb,
  min, append-nil, append_assoc, arith, true, take-append_min, assert_holds, take-nil,
}
use net_file_transfer.Memory.{text, strcpy, basename, strip_slashes}
use net_file_transfer.Memory.BaseText.{strip_slashes-strcpy}
use net_file_transfer.LibEvent.{LibEvent, IsLibEvent}
use net_file_transfer.OpenSsl.{Md5}
use net_file_transfer.Stdio.{World, bufsiz, fwrite, fclose, fwritten, new_writing}
use net_file_transfer.Stdio.Counts.{chunks, counted, counted_le, fwrite_le}
use net_file_transfer.Stdio.Files.{
  opened, fopen_wb_ok, fclose_self, fclose_other, Left, fclose-Left,
}
use net_file_transfer.Log.{Log}
use net_file_transfer.Interface.{WriteArg, DrainState, write_loop, writefile, verdict}

-- One round of the loop on the bytes that `evbuffer_remove` gave.
abbrev write_step : (l : LibEvent) (m : Md5) → DrainState l m → List ℕ → l.EvBuffer → DrainState l m
write_step l m s bytes rest = record {
  buf = rest;
  ctx = m.md5_update s.ctx bytes;
  fp = (fwrite s.fp bytes).1;
  total = (s.total + (fwrite s.fp bytes).0) % 2 ^ 64;
}

-- The state of the loop once all of `bytes` has gone through it.
record Drained (l : LibEvent) (m : Md5) (fuel : ℕ) (bytes : List ℕ) (s t : DrainState l m)
    : Type 0 where
  emptied : l.contents t.buf ≡ []
  hashed : t.ctx ≡ foldl m.md5_update s.ctx (chunks fuel bytes)
  written : t.fp.written ≡ s.fp.written ++ take s.fp.space bytes
  space : t.fp.space ≡ s.fp.space - length bytes
  total : t.total ≡ s.total + fwritten s.fp (chunks fuel bytes)

-- The outcome of `writefile` for a buffer that held `bytes`: the buffer is empty, the file holds
-- what the disk had room for, no other file changed, the name in the header has lost its trailing
-- slashes, and 1 is returned exactly when `fwrite` counted
-- fewer bytes.
pub record Written (l : LibEvent) (w : World) (args : WriteArg l) (path bytes : List ℕ) (ret : ℕ)
    (w' : World) (args' : WriteArg l) : Type 0 where
  pub emptied : l.contents args'.buffer ≡ []
  pub named : text args'.finfo.name ≡ ok (strip_slashes path)
  pub same_size : args'.finfo.size ≡ args.finfo.size
  pub same_info : args'.finfo.info ≡ args.finfo.info
  pub stored : w'.file (basename path) ≡ some (take w.space bytes)
  pub others : (other : List ℕ) → other ≢ basename path → w'.file other ≡ w.file other
  pub left : Left (length bytes) w w'
  pub failed : (ret ≡ 1) ↔ (counted w bytes < length bytes)
  pub succeeded : (ret ≡ 0) ↔ (counted w bytes ≡ length bytes)

-- The value returned, when the loop counted no more than there was.
module _ (total len count : ℕ) (md info : List ℕ) (log : Log) (sum : total ≡ 0 + count)
    (bound : count ≤ len) where
  verdict-failed : ((verdict total len md info log).0 ≡ 1) ↔ (count < len)
  unfolding verdict
  verdict-failed = (λ e. ground arith, λ e. ground arith)

  verdict-succeeded : ((verdict total len md info log).0 ≡ 0) ↔ (count ≡ len)
  unfolding verdict
  verdict-succeeded = (λ e. ground arith, λ e. ground arith)

module _ {l : LibEvent} (m : Md5) (lv : IsLibEvent l) where
  Drained-nil :
      (fuel : ℕ) (s : DrainState l m)
      → l.contents s.buf ≡ []
      → Drained l m (suc fuel) [] s (record s { buf = (l.evbuffer_remove s.buf bufsiz).1 })
  Drained-nil fuel s e = record {
    emptied = lv.remove_contents s.buf bufsiz ∙ ap (drop bufsiz) e;
    hashed = refl;
    written = sym (ap (λ b. s.fp.written ++ b) (take-nil s.fp.space) ∙ append-nil s.fp.written);
    space = omega arith;
    total = omega arith;
  }

  Drained-step :
      (fuel c : ℕ) (rest : List ℕ) (s t : DrainState l m) (buf' : l.EvBuffer)
      → s.total + length (c ∷ rest) < 2 ^ 64
      → Drained l m fuel (drop bufsiz (c ∷ rest)) (write_step l m s (take bufsiz (c ∷ rest)) buf') t
      → Drained l m (suc fuel) (c ∷ rest) s t
  unfolding fwrite
  Drained-step fuel c rest s t buf' k d =
      let whole = c ∷ rest in
      let piece = take bufsiz whole in
      let others = drop bufsiz whole in
      let n = min (length piece) s.fp.space in
      let cut : length piece + length others ≡ length whole =
        omega (arith, length-take bufsiz whole, length-drop bufsiz whole) in
      record {
        emptied = d.emptied;
        hashed = d.hashed;
        written =
            d.written
            ∙ append_assoc s.fp.written (take n piece) (take (s.fp.space - n) others)
            ∙ ap (λ b. s.fp.written ++ b)
                (take-append_min s.fp.space piece others n refl
                  ∙ ap (take s.fp.space) (take-append-drop bufsiz whole));
        space = omega (arith, d.space, cut);
        total = omega (arith, d.total, cut, fwrite_le s.fp piece);
      }

  write_loop_lem :
      (fuel : ℕ) (bytes : List ℕ) (s : DrainState l m)
      → l.contents s.buf ≡ bytes
      → length bytes < fuel
      → s.total + length bytes < 2 ^ 64
      → (t : DrainState l m) × (write_loop l m fuel s ≡ ok t) × Drained l m fuel bytes s t
  unfolding write_loop fwrite
  write_loop_lem zero bytes s e h k = absurd (omega arith)
  write_loop_lem (suc fuel) [] s e h k = (
    record s { buf = (l.evbuffer_remove s.buf bufsiz).1 },
    rw (lv.removed s.buf bufsiz, e) refl,
    Drained-nil fuel s e,
  )
  write_loop_lem (suc fuel) (c ∷ rest) s e h k =
      let whole = c ∷ rest in
      let piece = take bufsiz whole in
      let more : 0 < length piece = omega (arith, length-take bufsiz whole) in
      let got : (l.evbuffer_remove s.buf bufsiz).0 ≡ piece =
        lv.removed s.buf bufsiz ∙ ap (take bufsiz) e in
      let s' = write_step l m s piece (l.evbuffer_remove s.buf bufsiz).1 in
      let (t, run, d) =
        write_loop_lem fuel (drop bufsiz whole) s'
          (lv.remove_contents s.buf bufsiz ∙ ap (drop bufsiz) e)
          (omega (arith, length-drop bufsiz whole))
          (omega
            (arith, length-take bufsiz whole, length-drop bufsiz whole, fwrite_le s.fp piece)) in
      (t, rw (got, lt→ltb 0 (length piece) more) run, Drained-step fuel c rest s t _ k d)

  -- The state of the loop at its start, and what `writefile` returns if the loop ends in `t`.
  start : World → l.EvBuffer → DrainState l m
  start w buf = record { buf = buf; ctx = m.md5_init; fp = new_writing w; total = 0 }

  closing : World → WriteArg l → List ℕ → List ℕ → ℕ → DrainState l m → ℕ × World × WriteArg l
  closing w args path name len t =
      let w₂ = fclose (opened w (basename path)) (basename path) t.fp in
      let result = verdict t.total len (m.md5_final t.ctx) args.finfo.info w₂.log in
      (
        result.0,
        record w₂ { log = result.1 },
        record { finfo = record args.finfo { name = name }; buffer = t.buf },
      )

  writefile_runs :
      (w : World) (args : WriteArg l) (path name : List ℕ) (len : ℕ) (t : DrainState l m)
      → text args.finfo.name ≡ ok path
      → strcpy args.finfo.name (strip_slashes path ++ 0 ∷ []) ≡ ok name
      → l.evbuffer_get_length args.buffer ≡ len
      → w.writable (basename path) ≡ true
      → w.malloc ≡ true
      → write_loop l m (len + 1) (start w args.buffer) ≡ ok t
      → writefile l m w args ≡ ok (closing w args path name len t)
  unfolding writefile start closing
  writefile_runs w args path name len t named cut e can memory run =
      rw (named, cut, fopen_wb_ok w (basename path) can) (assert_holds memory _ ∙ rw (e, run))

  -- For a buffer of fewer than 2^64 bytes, a name that ends within its array and can be opened,
  -- and a `malloc` that gives memory, `writefile` returns: the buffer is empty, the file of the
  -- base name holds the bytes as far as the disk has room, no other file changes, of the
  -- header only the name does, which loses its trailing slashes, the room is less
  -- by as many bytes, or none is left, and the rest of the environment as before, and the value is
  -- 1 exactly if `fwrite` returned fewer bytes in all than it was given and 0 exactly if it returned
  -- as many, whatever the digest in the header and whether the disk had room for what stayed in a
  -- buffer or not.
  pub writefile_lem :
      (w : World) (args : WriteArg l) {path bytes : List ℕ}
      → text args.finfo.name ≡ ok path
      → l.contents args.buffer ≡ bytes
      → w.writable (basename path) ≡ true
      → w.malloc ≡ true
      → length bytes < 2 ^ 64
      → (ret : ℕ) × (w' : World) × (args' : WriteArg l) × (writefile l m w args
          ≡ ok (ret, w', args'))
        × Written l w args path bytes ret w' args'
  unfolding start closing
  writefile_lem w args {path} {bytes} named held can memory fits =
      let (t, run, d) =
        write_loop_lem (length bytes + 1) bytes (start w args.buffer) held (omega arith)
          (omega arith) in
      let (name, cut, read, _) = strip_slashes-strcpy args.finfo.name path named in
      let (ret, w', args') = closing w args path name (length bytes) t in
      (
        ret,
        w',
        args',
        writefile_runs w args path name (length bytes) t named cut
            (lv.length_contents args.buffer ∙ ap length held) can memory run,
        record {
          emptied = d.emptied;
          named = read;
          same_size = refl;
          same_info = refl;
          stored = fclose_self w (basename path) t.fp ∙ ap some d.written;
          others = λ other ne. fclose_other w (basename path) t.fp other ne;
          left = fclose-Left w (basename path) t.fp (length bytes) _ d.space;
          failed =
              verdict-failed t.total (length bytes) (counted w bytes) _ _ _ d.total
                (counted_le w bytes);
          succeeded =
              verdict-succeeded t.total (length bytes) (counted w bytes) _ _ _ d.total
                (counted_le w bytes);
        },
      )
