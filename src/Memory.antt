-- ===== src/Memory.antt =====
-- The functions of the C library on character arrays that the program calls (`strcpy`, `snprintf`
-- with "%s", `memcpy`, `basename`), and the bytes of an unsigned integer in memory (little endian,
-- as on the x86-64 that the program is built for).
-- An array is the list of its bytes; what leaves it is `fault`.
pub mod Words
pub mod Text
pub mod Decimal
pub mod BaseName
pub mod BaseText
use net_file_transfer.Base.{
  ℕ, zero, suc, ◌+◌, ◌-◌, ◌*◌, ◌/◌, ◌%◌, ◌<◌, ◌≤◌, Bool, true, false, List, [], ◌∷◌, ◌++◌, reverse,
  Option, none, some, Outcome, ok, fault, ◌>>=◌, ◌>>◌, require, length, take, drop, replicate,
  length-replicate, ◌≡◌, leb, ltb, ◌==◌, if◌then◌else◌,
}

-- What `memset(p, 0, n)` leaves in an array of n bytes.
unfoldable pub zeros : ℕ → List ℕ
zeros n = replicate n 0

pub length-zeros : (n : ℕ) → length (zeros n) ≡ n
unfolding zeros
length-zeros n = length-replicate n 0

-- `memcpy(dst, src, n)`, for `dst` the whole array.
unfoldable pub memcpy : List ℕ → List ℕ → ℕ → Outcome (List ℕ)
memcpy dst src n = do
  require (leb n (length dst))
  require (leb n (length src))
  ok (take n src ++ drop n dst)

-- The text that a character array holds: its bytes up to the first NUL, which must be there.
unfoldable pub text : List ℕ → Outcome (List ℕ)
text [] = fault
text (c ∷ cs) = let rest = (do t ← text cs; ok (c ∷ t)) in if c == 0 then ok [] else rest

-- `strcpy(dst, src)`: the text and its NUL.
unfoldable pub strcpy : List ℕ → List ℕ → Outcome (List ℕ)
unfolding memcpy text
strcpy dst src = do t ← text src; memcpy dst (t ++ 0 ∷ []) (length t + 1)

-- `snprintf(dst, size, "%s", src)`: the text, cut to fit, and a NUL.
unfoldable pub snprintf_s : List ℕ → ℕ → List ℕ → Outcome (List ℕ)
unfolding memcpy text
snprintf_s dst size src = do
  t ← text src
  let kept = take (size - 1) t
  memcpy dst (kept ++ 0 ∷ []) (length kept + 1)

-- The bytes of an unsigned integer of `width` bytes, lowest first.
unfoldable pub le_bytes : (width : ℕ) → ℕ → List ℕ
le_bytes zero n = []
le_bytes (suc k) n = (n % 256) ∷ le_bytes k (n / 256)

unfoldable pub le_value : List ℕ → ℕ
le_value [] = 0
le_value (b ∷ bs) = b + 256 * le_value bs

abbrev pub slash : ℕ
slash = b'/'

-- The characters before the first '/', and the '/'s at the front, of a text.
unfoldable pub until_slash : List ℕ → List ℕ
until_slash [] = []
until_slash (c ∷ cs) = let rest = c ∷ until_slash cs in if c == slash then [] else rest

unfoldable pub skip_slashes : List ℕ → List ℕ
skip_slashes [] = []
skip_slashes (c ∷ cs) = let rest = skip_slashes cs in if c == slash then rest else c ∷ cs

-- `basename(path)` on a text: "." for the empty one, "/" for one of slashes only, and otherwise
-- what stands behind the last '/', trailing ones aside.
base_of_stripped : List ℕ → List ℕ
base_of_stripped [] = slash ∷ []
base_of_stripped (c ∷ cs) = reverse (until_slash (c ∷ cs))

unfoldable pub basename : List ℕ → List ℕ
unfolding until_slash skip_slashes base_of_stripped
basename [] = b'.' ∷ []
basename (c ∷ cs) = base_of_stripped (skip_slashes (reverse (c ∷ cs)))

-- What `basename(path)` leaves of the text itself: it puts a NUL over the first of the trailing
-- slashes, if the text is not made of slashes only.
or_all : List ℕ → List ℕ → List ℕ
or_all t [] = t
or_all t (c ∷ cs) = reverse (c ∷ cs)

unfoldable pub strip_slashes : List ℕ → List ℕ
unfolding skip_slashes or_all
strip_slashes t = or_all t (skip_slashes (reverse t))
