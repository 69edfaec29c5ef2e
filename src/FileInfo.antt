-- ===== src/FileInfo.antt =====
-- c/fileinfo.h and c/fileinfo.c: the header that describes a file, its bytes in memory, which are
-- what goes over the wire, and the digest checks.
pub mod Layout
pub mod Wire
pub mod Digest
use net_file_transfer.Base.{
  ℕ, ◌+◌, ◌≤◌, ◌<◌, ◌^◌, ◌≡◌, Bool, true, false, List, [], ◌∷◌, ◌++◌, Option, none, some, Outcome,
  ok, fault, out_of_fuel, ◌>>=◌, ◌>>◌, require, length, take, drop, leb, ◌==◌, bytes_eq,
  if◌then◌else◌,
}
use net_file_transfer.Memory.{memcpy, le_bytes, le_value}
use net_file_transfer.OpenSsl.{Md5, digest, md5_digest_length}

abbrev pub maxlen : ℕ
maxlen = 256

-- `sizeof(size_t)` and the size of a pointer.
abbrev pub word : ℕ
word = 8

-- `struct fileinfo`. `name` is the whole array.
pub record FileInfo : Type 0 where
  pub name : List ℕ
  pub size : ℕ
  pub info : List ℕ

-- The arrays have their declared lengths, and `size` is a `size_t`.
pub record IsFileInfo (f : FileInfo) : Type 0 where
  pub name_length : length f.name ≡ maxlen
  pub size_bound : f.size < 2 ^ 64
  pub info_length : length f.info ≡ md5_digest_length

-- `sizeof(struct fileinfo)`: no padding is needed between or behind the fields.
abbrev pub sizeof_fileinfo : ℕ
sizeof_fileinfo = maxlen + word + md5_digest_length

-- The bytes of the structure in memory, and the structure that given bytes make up.
unfoldable pub to_bytes : FileInfo → List ℕ
to_bytes f = f.name ++ (le_bytes word f.size ++ f.info)

unfoldable pub of_bytes : List ℕ → FileInfo
of_bytes bs = record {
  name = take maxlen bs;
  size = le_value (take word (drop maxlen bs));
  info = take md5_digest_length (drop word (drop maxlen bs));
}

-- `decode(finfo, buf, n)`: the structure afterwards.
unfoldable pub decode : FileInfo → List ℕ → ℕ → Outcome FileInfo
unfolding to_bytes of_bytes
decode finfo buf n = do bs ← memcpy (to_bytes finfo) buf n; ok (of_bytes bs)

-- `encode(buf, finfo)`: the number of bytes, and the buffer afterwards.
unfoldable pub encode : List ℕ → FileInfo → Outcome (ℕ × List ℕ)
unfolding to_bytes
encode buf finfo = do out ← memcpy buf (to_bytes finfo) sizeof_fileinfo; ok (sizeof_fileinfo, out)

module _ (m : Md5) where
  -- `calc_md5(bytes, n)`, where `allocated` says whether `malloc` gave memory.
  unfoldable pub calc_md5 : Bool → List ℕ → ℕ → Outcome (Option (List ℕ))
  calc_md5 allocated bytes n = do
    require (leb n (length bytes))
    ok (if allocated then some (digest m (take n bytes)) else none)

  -- `while (test == NULL) test = calc_md5(...)`, over the outcomes of the calls of `malloc`.
  unfoldable pub until_allocated : List Bool → List ℕ → ℕ → Outcome (List ℕ)
  unfolding calc_md5
  until_allocated [] bytes n = out_of_fuel
  until_allocated (a ∷ as') bytes n = do
    test ← calc_md5 a bytes n
    elim test [ some md ↦ ok md | none ↦ until_allocated as' bytes n ]

  -- `is_data_correct(finfo, data, n)`: the comparison is over `sizeof(test)` bytes, which is the
  -- size of a pointer.
  unfoldable pub is_data_correct : List Bool → FileInfo → List ℕ → ℕ → Outcome ℕ
  unfolding until_allocated
  is_data_correct mallocs finfo bytes n =
      if n == finfo.size
      then (do
        test ← until_allocated mallocs bytes n
        ok (if bytes_eq (take word test) (take word finfo.info) then 1 else 0))
      else ok 0
