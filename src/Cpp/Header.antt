-- ===== src/Cpp/Header.antt =====
-- cpp/fileinfo.h and cpp/fileinfo.cc: the array that announces a file name, which holds the name's
-- length in decimal, two NULs, and the name.
pub mod Store
pub mod RoundTrip
pub mod Bounds
pub mod Ends
pub mod Limits
use net_file_transfer.Base.{
  ℕ, zero, suc, ◌+◌, ◌-◌, ◌%◌, ◌^◌, List, [], ◌∷◌, ◌++◌, Outcome, ok, fault, ◌>>=◌, ◌>>◌, require,
  length, take, drop, leb, if◌then◌else◌,
}
use net_file_transfer.Memory.Decimal.{decimal}
use net_file_transfer.Config.{CInt, atoi}

abbrev pub max_filename_len : ℕ
max_filename_len = 128

abbrev pub sep_char : ℕ
sep_char = 0

abbrev pub sep_len : ℕ
sep_len = 2

-- `numToStr(tmp, n)`: the text that is left in `tmp`, and its length. A `size_t` has at most twenty
-- digits, which `tmp` has room for.
unfoldable pub num_to_str : ℕ → List ℕ × ℕ
num_to_str n = let tmp = decimal 20 n in (tmp, length tmp)

-- `a[i] = v`, which leaves the array if `i` is out of range.
unfoldable pub store : List ℕ → ℕ → ℕ → Outcome (List ℕ)
store [] i v = fault
store (x ∷ xs) zero v = ok (v ∷ xs)
store (x ∷ xs) (suc i) v = do xs' ← store xs i v; ok (x ∷ xs')

-- `for (...; ++i) a[i] = ...` over the values given.
unfoldable pub store_all : List ℕ → ℕ → List ℕ → Outcome (List ℕ)
unfolding store
store_all a i [] = ok a
store_all a i (v ∷ vs) = do a' ← store a i v; store_all a' (i + 1) vs

-- `encode_fileinfo(a, filename)`.
unfoldable pub encode_fileinfo : List ℕ → List ℕ → Outcome (List ℕ)
unfolding store_all num_to_str
encode_fileinfo a filename = do
  let (tmp, len) = num_to_str (length filename)
  a₁ ← store_all a 0 tmp
  a₂ ← store a₁ len sep_char
  a₃ ← store a₂ (len + 1) sep_char
  store_all a₃ (len + sep_len) filename

-- The conversion of an `int` to `size_t`.
unfoldable pub to_size : CInt → ℕ
to_size n = if n.negative then (2 ^ 64 - n.magnitude % 2 ^ 64) % 2 ^ 64 else n.magnitude % 2 ^ 64

-- `base + n` for a position and an `int`.
unfoldable pub offset : ℕ → CInt → Outcome ℕ
offset base n =
    if n.negative
    then (do require (leb n.magnitude base); ok (base - n.magnitude))
    else ok (base + n.magnitude)

-- `decode_fileinfo(filename, a)`: the range that the string is made from has to lie in the array.
unfoldable pub decode_fileinfo : List ℕ → Outcome (List ℕ)
unfolding num_to_str to_size offset
decode_fileinfo a = do
  n ← atoi a
  let (tmp, len) = num_to_str (to_size n)
  let first = len + sep_len
  last ← offset (len + sep_len) n
  require (leb first last)
  require (leb last (length a))
  ok (take (last - first) (drop first a))
