-- ===== src/Stdio/Counts.antt =====
-- What `fwrite` returns on a disk with room, and on a full one.
use net_file_transfer.Base.{
  ℕ, zero, suc, ◌∙◌, sym, ap, length-drop, take-append-drop, take_all, drop_all, take, drop,
  take-append, drop-append, ◌+◌, ◌-◌, ◌<◌, ◌≤◌, ◌≡◌, List, [], ◌∷◌, ◌++◌, flatten, length,
  length-append, arith, ltb, Bool-cases, ltb→lt, not_ltb→le, inl, inr, refl,
}
use net_file_transfer.Stdio.{World, Writing, bufsiz, fwrite, fwritten, new_writing}

-- A stream that does not accept all of the bytes given when they do not fit, as without a buffer.
abbrev pub Reports : Writing → Type 0
Reports fp = (given n : ℕ) → 0 < n → fp.short given n < n

-- A stream that accepts all of them, as if they stay in its buffer.
abbrev pub Hides : Writing → Type 0
Hides fp = (given n : ℕ) → fp.short given n ≡ n

-- One call.
pub fwrite_fits : (fp : Writing) (b : List ℕ) → length b ≤ fp.space → (fwrite fp b).0 ≡ length b
unfolding fwrite
fwrite_fits fp b room = ground arith

pub fwrite_le : (fp : Writing) (b : List ℕ) → (fwrite fp b).0 ≤ length b
unfolding fwrite
fwrite_le fp b = ground arith

fwrite_reporting :
    (fp : Writing) (b : List ℕ) → Reports fp → fp.space < length b → (fwrite fp b).0 < length b
unfolding fwrite
fwrite_reporting fp b reports full = ground (arith, reports fp.given (length b) (omega arith))

fwrite_hiding : (fp : Writing) (b : List ℕ) → Hides fp → (fwrite fp b).0 ≡ length b
unfolding fwrite
fwrite_hiding fp b hides = ground (arith, hides fp.given (length b))

fwrite_space : (fp : Writing) (b : List ℕ) → (fwrite fp b).1.space ≡ fp.space - length b
unfolding fwrite
fwrite_space fp b = omega arith

fwrite-Reports : (fp : Writing) (b : List ℕ) → Reports fp → Reports (fwrite fp b).1
unfolding fwrite
fwrite-Reports fp b reports = reports

fwrite-Hides : (fp : Writing) (b : List ℕ) → Hides fp → Hides (fwrite fp b).1
unfolding fwrite
fwrite-Hides fp b hides = hides

-- With room for all of the pieces every byte is counted.
pub fwritten_fits :
    (fp : Writing) (pieces : List (List ℕ))
    → length (flatten pieces) ≤ fp.space
    → fwritten fp pieces ≡ length (flatten pieces)
unfolding flatten
fwritten_fits fp [] room = refl
fwritten_fits fp (b ∷ pieces) room =
    let size = length-append b (flatten pieces) in
    let others =
      fwritten_fits (fwrite fp b).1 pieces (omega (arith, size, room, fwrite_space fp b)) in
    omega (arith, size, others, fwrite_fits fp b (omega (arith, size, room)))

-- No more is counted than was given.
pub fwritten_le :
    (fp : Writing) (pieces : List (List ℕ)) → fwritten fp pieces ≤ length (flatten pieces)
unfolding flatten
fwritten_le fp [] = omega arith
fwritten_le fp (b ∷ pieces) =
    omega
      (arith, length-append b (flatten pieces), fwritten_le (fwrite fp b).1 pieces, fwrite_le fp b)

-- A stream that accepts everything counts everything, stored or not.
pub fwritten_hiding :
    (fp : Writing) (pieces : List (List ℕ))
    → Hides fp
    → fwritten fp pieces ≡ length (flatten pieces)
unfolding flatten
fwritten_hiding fp [] hides = refl
fwritten_hiding fp (b ∷ pieces) hides = omega (
  arith,
  length-append b (flatten pieces),
  fwritten_hiding (fwrite fp b).1 pieces (fwrite-Hides fp b hides),
  fwrite_hiding fp b hides,
)

-- A stream that reports counts fewer bytes than were given if these do not fit.
pub fwritten_reporting :
    (fp : Writing) (pieces : List (List ℕ))
    → Reports fp
    → fp.space < length (flatten pieces)
    → fwritten fp pieces < length (flatten pieces)
unfolding flatten
fwritten_reporting fp [] reports full = absurd (omega arith)
fwritten_reporting fp (b ∷ pieces) reports full =
    let size = length-append b (flatten pieces) in
    elim (Bool-cases (ltb fp.space (length b))) [
      | inr fits ↦
          let room = not_ltb→le fp.space (length b) fits in
          omega (
            arith,
            size,
            fwrite_fits fp b room,
            fwritten_reporting (fwrite fp b).1 pieces (fwrite-Reports fp b reports)
                (omega (arith, size, fwrite_space fp b, full)),
          )
      | inl full' ↦
          let over = ltb→lt fp.space (length b) full' in
          omega
            (arith, size, fwrite_reporting fp b reports over, fwritten_le (fwrite fp b).1 pieces)
    ]

-- The pieces in which a file of that content is read, on fuel.
abbrev pub chunks : ℕ → List ℕ → List (List ℕ)
chunks zero rest = []
chunks (suc fuel) [] = []
chunks (suc fuel) (c ∷ rest) = take bufsiz (c ∷ rest) ∷ chunks fuel (drop bufsiz (c ∷ rest))

pub flatten-chunks :
    (fuel : ℕ) (rest : List ℕ) → length rest < fuel → flatten (chunks fuel rest) ≡ rest
unfolding flatten
flatten-chunks zero rest h = absurd (omega arith)
flatten-chunks (suc fuel) [] h = refl
flatten-chunks (suc fuel) (c ∷ rest) h =
    ap (λ l. take bufsiz (c ∷ rest) ++ l)
      (flatten-chunks fuel (drop bufsiz (c ∷ rest)) (omega (arith, length-drop bufsiz (c ∷ rest))))
    ∙ take-append-drop bufsiz (c ∷ rest)

-- What `fwrite` returns in all for these bytes, of which `evbuffer_remove` gives BUFSIZ at a time, on
-- a file just opened.
abbrev pub counted : World → List ℕ → ℕ
counted w bytes = fwritten (new_writing w) (chunks (length bytes + 1) bytes)

module _ (w : World) (bytes : List ℕ) where
  given_all : flatten (chunks (length bytes + 1) bytes) ≡ bytes
  given_all = flatten-chunks (length bytes + 1) bytes (omega arith)

  pub counted_le : counted w bytes ≤ length bytes
  counted_le =
      omega
        (arith, ap length given_all, fwritten_le (new_writing w) (chunks (length bytes + 1) bytes))

  -- With room every byte is counted.
  pub counted_fits : length bytes ≤ w.space → counted w bytes ≡ length bytes
  counted_fits room =
      fwritten_fits (new_writing w) (chunks (length bytes + 1) bytes)
        (omega (arith, ap length given_all))
      ∙ ap length given_all

  -- Without room, a stream that reports does not count them all, and one that accepts all does.
  pub counted_reporting :
      Reports (new_writing w) → w.space < length bytes → counted w bytes < length bytes
  counted_reporting reports full = omega (
    arith,
    ap length given_all,
    fwritten_reporting (new_writing w) (chunks (length bytes + 1) bytes) reports
        (omega (arith, ap length given_all)),
  )

  pub counted_hiding : Hides (new_writing w) → counted w bytes ≡ length bytes
  counted_hiding hides =
      fwritten_hiding (new_writing w) (chunks (length bytes + 1) bytes) hides ∙ ap length given_all

-- More fuel than bytes cuts the same pieces.
chunks-fuel :
    (f g : ℕ) (bytes : List ℕ)
    → length bytes < f
    → length bytes < g
    → chunks f bytes ≡ chunks g bytes
chunks-fuel zero g bytes h k = absurd (omega arith)
chunks-fuel (suc f) zero bytes h k = absurd (omega arith)
chunks-fuel (suc f) (suc g) [] h k = refl
chunks-fuel (suc f) (suc g) (c ∷ rest) h k =
    ap (λ l. take bufsiz (c ∷ rest) ∷ l)
      (chunks-fuel f g (drop bufsiz (c ∷ rest)) (omega (arith, length-drop bufsiz (c ∷ rest)))
        (omega (arith, length-drop bufsiz (c ∷ rest))))

-- A full buffer is the first piece.
pub fwritten-append :
    (fp : Writing) (piece rest : List ℕ)
    → length piece ≡ bufsiz
    → fwritten fp (chunks (length (piece ++ rest) + 1) (piece ++ rest))
      ≡ (fwrite fp piece).0 + fwritten (fwrite fp piece).1 (chunks (length rest + 1) rest)
fwritten-append fp [] rest size = absurd (omega arith)
fwritten-append fp (b ∷ piece) rest size =
    let whole = b ∷ piece in
    let all = whole ++ rest in
    let n = length (piece ++ rest) + 1 in
    let left : drop bufsiz all ≡ rest = drop-append bufsiz whole rest size in
    let pieces : chunks (suc n) all ≡ whole ∷ chunks (length rest + 1) rest =
      ap (λ p. p ∷ chunks n (drop bufsiz all)) (take-append bufsiz whole rest size)
      ∙ ap (λ r. whole ∷ chunks n r) left
      ∙ ap (λ r. whole ∷ r)
          (chunks-fuel n (length rest + 1) rest (omega (arith, length-append piece rest))
            (omega arith)) in
    ap (fwritten fp) (chunks-fuel (length all + 1) (suc n) all (omega arith) (omega arith) ∙ pieces)

-- Less than a full buffer is one piece, if any.
pub fwritten_last :
    (fp : Writing) (bytes : List ℕ)
    → length bytes < bufsiz
    → fwritten fp (chunks (length bytes + 1) bytes) ≡ (fwrite fp bytes).0
fwritten_last fp [] less = sym (fwrite_fits fp [] (omega arith))
fwritten_last fp (b ∷ bytes) less =
    let whole = b ∷ bytes in
    let cut : chunks (suc (suc (length bytes))) whole ≡ whole ∷ [] =
      ap (λ p. p ∷ chunks (suc (length bytes)) (drop bufsiz whole))
        (take_all bufsiz whole (omega arith))
      ∙ ap (λ r. whole ∷ chunks (suc (length bytes)) r) (drop_all bufsiz whole (omega arith)) in
    ap (fwritten fp) (
      chunks-fuel (length whole + 1) (suc (suc (length bytes))) whole (omega arith) (omega arith)
      ∙ cut)
    ∙ omega arith
