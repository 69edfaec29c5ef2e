-- ===== src/OpenSsl.antt =====
-- OpenSSL's MD5, which the repository does not hold: the three calls as operations over an
-- unknown context, and what the program relies on.
pub mod Toy
use net_file_transfer.Base.{ℕ, ◌≡◌, List, foldl, flatten, length}
use net_file_transfer.Memory.Words.{IsBytes}

abbrev pub md5_digest_length : ℕ
md5_digest_length = 16

pub record Md5 : Type 1 where
  pub Md5Ctx : Type 0
  pub md5_init : Md5Ctx
  pub md5_update : Md5Ctx → List ℕ → Md5Ctx
  pub md5_final : Md5Ctx → List ℕ

-- The digest of a message given in one piece.
abbrev pub digest : (m : Md5) → List ℕ → List ℕ
digest m d = m.md5_final (m.md5_update m.md5_init d)

-- The documented behaviour: a digest has 16 bytes, and a message may be hashed chunk by chunk.
pub record IsMd5 (m : Md5) : Type 0 where
  pub final_length : (c : m.Md5Ctx) → length (m.md5_final c) ≡ md5_digest_length
  pub final_bytes : (c : m.Md5Ctx) → IsBytes (m.md5_final c)
  pub chunked :
      (chunks : List (List ℕ))
      → m.md5_final (foldl m.md5_update m.md5_init chunks) ≡ digest m (flatten chunks)
