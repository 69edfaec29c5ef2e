-- ===== src/Cpp/Server/Receive.antt =====
-- What the server makes of a stream: the loop of `handle_write_file`, and a whole connection.
use net_file_transfer.Base.{
  ℕ, zero, suc, ◌+◌, ◌-◌, ◌%◌, ◌^◌, ◌<◌, ◌≤◌, ◌≡◌, ◌≢◌, ◌⊎◌, inl, inr, refl, sym, ap, subst, ◌∙◌,
  List, [], ◌++◌, some, ok, min, length, take, drop, take-append_min, length-take, length-drop,
  length-append, ltb, arith, append_assoc, append-nil, take-nil, Bool-cases, ltb→lt, not_ltb→le,
}
use net_file_transfer.Stdio.{World, bufsiz, fwrite, fclose, stored}
use net_file_transfer.Stdio.Counts.{fwritten_last, fwritten-append}
use net_file_transfer.Asio.{Asio, IsAsio, ErrorCode, success, eof, failure}
use net_file_transfer.Cpp.Server.{
  File, Connection, Pending, nothing, write_file, finish_file, close_file, handle_error, complete,
  service_run,
}
use net_file_transfer.Cpp.Server.Rounds.{
  kept, kept_full, kept_none, kept-eof, Stored, received, next_file, next_round, full_round,
  last_round, failed_round,
}

pub service_run-nothing :
    (io : Asio) (fuel : ℕ) (c : Connection io) → service_run io fuel nothing c ≡ ok c
unfolding service_run
service_run-nothing io zero c = refl
service_run-nothing io (suc fuel) c = refl

end_cases : (e : ErrorCode) → e ≢ success → (e ≡ eof) ⊎ ((n : ℕ) × (e ≡ failure n))
end_cases success ne = absurd (ne refl)
end_cases eof ne = inl refl
end_cases (failure n) ne = inr (n, refl)

-- One more round of the loop.
one_round :
    (io : Asio) (fuel : ℕ) (c : Connection io) {c' : Connection io} {next : Pending}
    → complete io write_file c ≡ ok (c', next)
    → service_run io (suc fuel) write_file c ≡ service_run io fuel next c'
unfolding service_run
one_round io fuel c e = rw e

-- The same bytes and the same room make the same file.
same_file :
    (w : World) (name : List ℕ) {a b : List ℕ} {s t : ℕ}
    → a ≡ b
    → s ≡ t
    → stored w name a s ≡ stored w name b t
same_file w name p q = λ i. stored w name (p i) (q i)

-- `fwrite` takes what there is room for.
accepted : (space : ℕ) (bytes : List ℕ) → take (min (length bytes) space) bytes ≡ take space bytes
accepted space bytes =
    let whole : take (min (length bytes) space) bytes ++ take (space - min (length bytes) space) []
        ≡ take space (bytes ++ []) =
      take-append_min space bytes [] (min (length bytes) space) refl in
    sym (append-nil (take (min (length bytes) space) bytes))
    ∙ ap (λ z. take (min (length bytes) space) bytes ++ z)
        (sym (take-nil (space - min (length bytes) space)))
    ∙ whole
    ∙ ap (take space) (append-nil bytes)

module _ {io : Asio} where
  finish_file-Stored :
      (c : Connection io) (fp : File) (bytes : List ℕ) (socket : io.Socket)
      → length bytes < bufsiz
      → Stored io c (finish_file io bytes fp (received c socket (length bytes))) fp bytes
  unfolding finish_file fwrite fclose
  finish_file-Stored c fp bytes socket less = record {
    world =
        same_file c.world fp.name
          (ap (λ b. fp.writing.written ++ b) (accepted fp.writing.space bytes)) (omega arith);
    counted = ap (λ n. (c.filesize + n) % 2 ^ 64) (sym (fwritten_last fp.writing bytes less));
    closed = refl;
    same_filename = refl;
  }

  close_file-Stored :
      (c : Connection io) (fp : File) (n k : ℕ) (socket : io.Socket)
      → c.filesize < 2 ^ 64
      → Stored io c
          (close_file io fp (handle_error io "handle_write_file" (failure n) (received c socket k)))
          fp
          []
  unfolding handle_error fclose
  close_file-Stored c fp n k socket bound = record {
    world =
        same_file c.world fp.name
          (sym (
            ap (λ b. fp.writing.written ++ b) (take-nil fp.writing.space)
            ∙ append-nil fp.writing.written))
          (omega arith);
    counted = omega arith;
    closed = refl;
    same_filename = refl;
  }

  next_round-Stored :
      (c c' : Connection io) (fp : File) (piece rest : List ℕ) (socket : io.Socket)
      → length piece ≡ bufsiz
      → Stored io (next_round c socket fp piece) c' (next_file fp piece) rest
      → Stored io c c' fp (piece ++ rest)
  unfolding fwrite
  next_round-Stored c c' fp piece rest socket size d =
      let n = min (length piece) fp.writing.space in
      record {
        world =
            d.world
            ∙ same_file c.world fp.name
                (append_assoc fp.writing.written (take n piece) (take (fp.writing.space - n) rest)
                  ∙ ap (λ b. fp.writing.written ++ b)
                      (take-append_min fp.writing.space piece rest n refl))
                (omega (arith, length-append piece rest));
        counted = omega (arith, d.counted, fwritten-append fp.writing piece rest size);
        closed = d.closed;
        same_filename = d.same_filename;
      }

module _ {io : Asio} (v : IsAsio io) where
  -- The stream ends within the buffer.
  short_stream :
      (fuel : ℕ) (content : List ℕ) (c : Connection io) (fp : File)
      → io.incoming c.socket ≡ content
      → c.fp ≡ some fp
      → c.bufsize ≡ bufsiz
      → c.filesize < 2 ^ 64
      → length content < bufsiz
      → (c' : Connection io) × (service_run io (suc fuel) write_file c ≡ ok c')
        × Stored io c c' fp (kept (io.ending c.socket) content)
  short_stream fuel content c fp here opened buffer bound short =
      let (err, got) = v.read_rest c.socket c.bufsize (omega (arith, ap length here, buffer)) in
      let socket = (io.async_read c.socket c.bufsize).2 in
      elim (end_cases (io.ending c.socket) (v.ending_ne_success c.socket)) [
        | inl e ↦ (
          finish_file io content fp (received c socket (length content)),
          one_round io fuel c (last_round c fp content opened (err ∙ e) (got ∙ here))
              ∙ service_run-nothing io fuel _,
          subst (Stored io c _ fp) (sym (ap (λ x. kept x content) e ∙ kept-eof content))
              (finish_file-Stored c fp content socket short),
        )
        | inr (n, e) ↦ (
          close_file io fp (
              handle_error io "handle_write_file" (failure n) (received c socket (length content))),
          one_round io fuel c (failed_round c fp content n opened (err ∙ e) (got ∙ here))
              ∙ service_run-nothing io fuel _,
          subst (Stored io c _ fp) (sym (ap (λ x. kept x content) e ∙ kept_none n content short))
              (close_file-Stored c fp n (length content) socket bound),
        )
      ]

  -- With more fuel than bytes the loop ends, and has stored what is kept of the stream.
  pub service_run-Stored :
      (fuel : ℕ) (content : List ℕ) (c : Connection io) (fp : File)
      → io.incoming c.socket ≡ content
      → c.fp ≡ some fp
      → c.bufsize ≡ bufsiz
      → c.filesize < 2 ^ 64
      → length content < fuel
      → (c' : Connection io) × (service_run io fuel write_file c ≡ ok c')
        × Stored io c c' fp (kept (io.ending c.socket) content)
  service_run-Stored zero content c fp here opened buffer bound enough = absurd (omega arith)
  service_run-Stored (suc fuel) content c fp here opened buffer bound enough =
      elim (Bool-cases (ltb (length content) bufsiz)) [
        | inl less ↦
            short_stream fuel content c fp here opened buffer bound
              (ltb→lt (length content) bufsiz less)
        | inr full ↦
            let room : bufsiz ≤ length content = not_ltb→le (length content) bufsiz full in
            let (no_error, got, left, same) =
              v.read_full c.socket c.bufsize (omega (arith, ap length here, buffer)) in
            let socket = (io.async_read c.socket c.bufsize).2 in
            let piece = take bufsiz content in
            let pos : 0 < length piece = omega (arith, length-take bufsiz content) in
            let (c', ran, d) =
              service_run-Stored fuel (drop bufsiz content) (next_round c socket fp piece)
                (next_file fp piece)
                (left ∙ ap (λ n. drop n (io.incoming c.socket)) buffer ∙ ap (drop bufsiz) here) refl
                buffer (omega arith) (omega (arith, length-drop bufsiz content)) in
            (
              c',
              one_round io fuel c (
                    full_round c fp piece opened no_error
                      (got ∙ ap (λ n. take n (io.incoming c.socket)) buffer ∙ ap (take bufsiz) here)
                      pos)
                  ∙ ran,
              subst (Stored io c c' fp)
                  (ap (λ e. piece ++ kept e (drop bufsiz content)) same
                    ∙ sym (kept_full (io.ending c.socket) content room))
                  (next_round-Stored c c' fp piece _ socket
                    (omega (arith, length-take bufsiz content)) d),
            )
      ]
