-- ===== src/FileInfo/Digest.antt =====
-- `is_data_correct`, which nothing calls: what it compares.
use net_file_transfer.Base.{
  ℕ, zero, suc, ◌≤◌, ◌≡◌, ◌↔◌, Bool, true, false, List, ◌∷◌, ◌++◌, Outcome, ok, length, take,
  replicate, ◌==◌, le→leb, bytes_eq, eq_of_bytes_eq, if◌then◌else◌, arith, ==_iff, bytes_eq-of_eq,
}
use net_file_transfer.OpenSsl.{Md5, digest}
use net_file_transfer.FileInfo.{FileInfo, word, calc_md5, until_allocated, is_data_correct}

compared :
    (n size : ℕ) (xs ys : List ℕ)
    → (if◌then◌else◌ {A = Outcome ℕ} (n == size) (ok (if bytes_eq xs ys then 1 else 0)) (ok 0)
        ≡ ok 1)
      ↔ ((n ≡ size) × (xs ≡ ys))
compared n size xs ys = (
  λ e. ground (arith, eq_of_bytes_eq xs ys),
  λ e. rw ((==_iff n size).1 e.0, bytes_eq-of_eq xs ys e.1),
)

module _ (m : Md5) where
  -- The loop goes on until `malloc` gives memory, and then has the digest.
  until_allocated_lem :
      (failures : ℕ) (later : List Bool) (bytes : List ℕ) (n : ℕ)
      → n ≤ length bytes
      → until_allocated m (replicate failures false ++ true ∷ later) bytes n
        ≡ ok (digest m (take n bytes))
  unfolding until_allocated calc_md5
  until_allocated_lem zero later bytes n h = rw (le→leb n (length bytes) h)
  until_allocated_lem (suc k) later bytes n h =
      rw (le→leb n (length bytes) h) (until_allocated_lem k later bytes n h)

  -- Once `malloc` gives memory, after any number of failures, and for a length within the array,
  -- `is_data_correct` is 1 exactly if the length is the size in the header and the first eight
  -- bytes of the digests agree.
  pub is_data_correct_lem :
      (failures : ℕ) (later : List Bool) (f : FileInfo) (bytes : List ℕ) (n : ℕ)
      → n ≤ length bytes
      → (is_data_correct m (replicate failures false ++ true ∷ later) f bytes n ≡ ok 1)
        ↔ ((n ≡ f.size) × (take word (digest m (take n bytes)) ≡ take word f.info))
  unfolding is_data_correct
  is_data_correct_lem failures later f bytes n h =
      rw (until_allocated_lem failures later bytes n h)
        (compared n f.size (take word (digest m (take n bytes))) (take word f.info))
