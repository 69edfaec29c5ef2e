-- ===== src/FileTest.antt =====
-- c/filetest.c: the trial program that encodes a header and decodes it again.
use net_file_transfer.Base.{
  ℕ, Bool, List, [], ◌∷◌, none, some, Outcome, ok, fault, ◌>>=◌, ◌≡◌, length, true, false, arith,
}
use net_file_transfer.Memory.{text, memcpy, strcpy}
use net_file_transfer.Memory.Text.{strcpy_ok, text_lem, memcpy_ok}
use net_file_transfer.OpenSsl.{Md5, IsMd5, digest, md5_digest_length}
use net_file_transfer.FileInfo.{FileInfo, IsFileInfo, calc_md5, encode, decode}
use net_file_transfer.FileInfo.Wire.{encode_overflow}

abbrev pub file_name : List ℕ
file_name = b'1' ∷ b'.' ∷ b'c' ∷ 0 ∷ []

-- `main`: `info`, `test` and `array` (the `data[100]`) are what stands in its locals, and
-- `allocated` says whether `malloc` gave `calc_md5` memory. The header decoded is what is printed.
unfoldable pub main : Md5 → Bool → FileInfo → FileInfo → List ℕ → Outcome FileInfo
main m allocated info test array = do
  name ← strcpy info.name file_name
  p ← calc_md5 m allocated (1 ∷ 2 ∷ 3 ∷ 4 ∷ []) 4
  md ← elim p [ none ↦ fault | some md ↦ ok md ]
  digest ← memcpy info.info md md5_digest_length
  (len, array') ← encode array (record { name = name; size = 4; info = digest })
  decode test array' len

file_name-text : text file_name ≡ ok (b'1' ∷ b'.' ∷ b'c' ∷ [])
file_name-text =
    text_lem (b'1' ∷ b'.' ∷ b'c' ∷ []) [] (omega arith, (omega arith, (omega arith, tt)))

-- For a digest of 16 bytes, a structure with arrays of the declared lengths and the array of 100
-- bytes, the trial program always leaves what C defines, whether `malloc` gives memory or not.
pub main-overflow :
    (m : Md5) (allocated : Bool) (info test : FileInfo) (array : List ℕ)
    → IsMd5 m
    → IsFileInfo info
    → length array ≡ 100
    → main m allocated info test array ≡ fault
unfolding main calc_md5
main-overflow m false info test array mv v size =
    rw (strcpy_ok info.name file_name _ file_name-text (omega (arith, v.name_length)))
main-overflow m true info test array mv v size = rw (
  strcpy_ok info.name file_name _ file_name-text (omega (arith, v.name_length)),
  memcpy_ok info.info (digest m (1 ∷ 2 ∷ 3 ∷ 4 ∷ [])) md5_digest_length
      (omega (arith, v.info_length))
      (omega (arith, mv.final_length (m.md5_update m.md5_init (1 ∷ 2 ∷ 3 ∷ 4 ∷ [])))),
  encode_overflow array _ (omega arith),
)
