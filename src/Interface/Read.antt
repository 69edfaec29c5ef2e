-- ===== src/Interface/Read.antt =====
-- What `readfile` puts into the evbuffer and the header.
use net_file_transfer.Base.{
  ℕ, zero, suc, ◌+◌, ◌%◌, ◌^◌, ◌<◌, ◌≡◌, refl, sym, ap, ◌∙◌, List, [], ◌∷◌, ◌++◌, some, ok, foldl,
  length, take, drop, length-take, length-drop, take-append-drop, lt→ltb, append-nil, append_assoc,
  arith,
}
use net_file_transfer.Memory.{text}
use net_file_transfer.LibEvent.{LibEvent, IsLibEvent}
use net_file_transfer.OpenSsl.{Md5, IsMd5, digest}
use net_file_transfer.FileInfo.Layout.{FileInfo_eq}
use net_file_transfer.Stdio.{World, bufsiz, fread}
use net_file_transfer.Stdio.Counts.{chunks, flatten-chunks}
use net_file_transfer.Interface.{WriteArg, ReadState, read_loop, readfile}

-- One round of the loop on the bytes that `fread` gave.
abbrev pub read_step : (l : LibEvent) (m : Md5) → ReadState l m → List ℕ → ReadState l m
read_step l m s bytes = record {
  buf = l.evbuffer_add s.buf bytes;
  ctx = m.md5_update s.ctx bytes;
  total = (s.total + length bytes) % 2 ^ 64;
}

module _ {l : LibEvent} {m : Md5} (lv : IsLibEvent l) where
  -- With more fuel than bytes the loop ends, and has moved every byte.
  read_loop_lem :
      (fuel : ℕ) (rest : List ℕ) (s : ReadState l m)
      → length rest < fuel
      → s.total + length rest < 2 ^ 64
      → (t : ReadState l m) × (read_loop l m fuel rest s ≡ ok t)
        × (l.contents t.buf ≡ l.contents s.buf ++ rest)
        × (t.ctx ≡ foldl m.md5_update s.ctx (chunks fuel rest))
        × (t.total ≡ s.total + length rest)
  unfolding read_loop fread
  read_loop_lem zero rest s h k = absurd (omega arith)
  read_loop_lem (suc fuel) [] s h k = (s, refl, sym (append-nil _), refl, omega arith)
  read_loop_lem (suc fuel) (c ∷ rest) s h k =
      let whole = c ∷ rest in
      let bytes = take bufsiz whole in
      let more : 0 < length bytes = omega (arith, length-take bufsiz whole) in
      let s' = read_step l m s bytes in
      let counted : s'.total + length (drop bufsiz whole) ≡ s.total + length whole =
        omega (arith, length-take bufsiz whole, length-drop bufsiz whole) in
      let (t, run, buf, ctx, total) =
        read_loop_lem fuel (drop bufsiz whole) s' (omega (arith, length-drop bufsiz whole))
          (omega (arith, counted)) in
      (
        t,
        rw (lt→ltb 0 (length bytes) more) run,
        buf
            ∙ ap (λ b. b ++ drop bufsiz whole) (lv.add_contents s.buf bytes)
            ∙ append_assoc (l.contents s.buf) bytes (drop bufsiz whole)
            ∙ ap (λ b. l.contents s.buf ++ b) (take-append-drop bufsiz whole),
        ctx,
        total ∙ counted,
      )

  -- For a name that ends within its array and a file of fewer than 2^64 bytes, `readfile` returns:
  -- the buffer holds all of the file behind what it held, and in the header only the size and the
  -- digest change, to those of the file.
  pub readfile_lem :
      (w : World) (args : WriteArg l) {name content : List ℕ}
      → IsMd5 m
      → text args.finfo.name ≡ ok name
      → w.file name ≡ some content
      → length content < 2 ^ 64
      → (out : WriteArg l) × (readfile l m w args ≡ ok out)
        × (l.contents out.buffer ≡ l.contents args.buffer ++ content)
        × (out.finfo ≡ record args.finfo { size = length content; info = digest m content })
  unfolding readfile
  readfile_lem w args {name} {content} mv named there fits =
      let (t, run, buf, ctx, total) =
        read_loop_lem (length content + 1) content
          (record { buf = args.buffer; ctx = m.md5_init; total = 0 }) (omega arith) (omega arith) in
      (
        record {
          finfo = record args.finfo { info = m.md5_final t.ctx; size = t.total };
          buffer = t.buf;
        },
        rw (named, there, run),
        buf,
        FileInfo_eq _ _ refl (omega (arith, total)) (
            ap m.md5_final ctx
            ∙ mv.chunked (chunks (length content + 1) content)
            ∙ ap (digest m) (flatten-chunks (length content + 1) content (omega arith))),
      )
