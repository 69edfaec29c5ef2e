-- ===== src/FileInfo/Layout.antt =====
-- The structure and its bytes determine each other.
use net_file_transfer.Base.{
  ℕ, ◌≡◌, ap, ◌∙◌, List, ◌++◌, length, take, drop, length-append, take-append, drop-append,
  take_all, arith,
}
use net_file_transfer.Memory.{le_bytes, le_value}
use net_file_transfer.Memory.Words.{length-le_bytes, le_value-le_bytes}
use net_file_transfer.OpenSsl.{md5_digest_length}
use net_file_transfer.FileInfo.{
  FileInfo, IsFileInfo, maxlen, word, sizeof_fileinfo, to_bytes, of_bytes,
}

pub length-to_bytes : {f : FileInfo} → IsFileInfo f → length (to_bytes f) ≡ sizeof_fileinfo
unfolding to_bytes
length-to_bytes {f} v = omega (
  arith,
  length-append f.name (le_bytes word f.size ++ f.info),
  length-append (le_bytes word f.size) f.info,
  length-le_bytes word f.size,
  v.name_length,
  v.info_length,
)

pub FileInfo_eq : (f g : FileInfo) → f.name ≡ g.name → f.size ≡ g.size → f.info ≡ g.info → f ≡ g
FileInfo_eq f g p q r = λ i. record { name = p i; size = q i; info = r i }

module _ {f : FileInfo} (v : IsFileInfo f) where
  behind_name : drop maxlen (to_bytes f) ≡ le_bytes word f.size ++ f.info
  unfolding to_bytes
  behind_name = drop-append maxlen f.name _ v.name_length

  behind_size : drop word (drop maxlen (to_bytes f)) ≡ f.info
  behind_size =
      ap (drop word) behind_name
      ∙ drop-append word (le_bytes word f.size) f.info (length-le_bytes word f.size)

  name_kept : (of_bytes (to_bytes f)).name ≡ f.name
  unfolding of_bytes to_bytes
  name_kept = take-append maxlen f.name _ v.name_length

  size_kept : (of_bytes (to_bytes f)).size ≡ f.size
  unfolding of_bytes
  size_kept =
      ap (λ l. le_value (take word l)) behind_name
      ∙ ap le_value (take-append word (le_bytes word f.size) f.info (length-le_bytes word f.size))
      ∙ le_value-le_bytes word f.size v.size_bound

  info_kept : (of_bytes (to_bytes f)).info ≡ f.info
  unfolding of_bytes
  info_kept =
      ap (take md5_digest_length) behind_size
      ∙ take_all md5_digest_length f.info (omega (arith, v.info_length))

  pub of_bytes-to_bytes : of_bytes (to_bytes f) ≡ f
  of_bytes-to_bytes = FileInfo_eq (of_bytes (to_bytes f)) f name_kept size_kept info_kept

-- What `decode` stores over the start of the structure.
pub name-of_bytes :
    (name rest : List ℕ) → length name ≡ maxlen → (of_bytes (name ++ rest)).name ≡ name
unfolding of_bytes
name-of_bytes name rest h = take-append maxlen name rest h
