-- ===== src/FileInfo/Wire.antt =====
-- `encode` and `decode` over the wire.
use net_file_transfer.Base.{
  ℕ, ◌<◌, ◌≤◌, ◌≡◌, sym, ap, ◌∙◌, List, ◌++◌, ok, fault, length, take, drop, length-append,
  length-drop, length-take, drop-append_le, append_assoc, ◌>>=◌, take-append, take_all, drop_all,
  append-nil, arith,
}
use net_file_transfer.Memory.{le_bytes}
use net_file_transfer.Memory.Text.{memcpy_ok, memcpy_overflow}
use net_file_transfer.FileInfo.{
  word, FileInfo, IsFileInfo, maxlen, sizeof_fileinfo, to_bytes, of_bytes, encode, decode,
}
use net_file_transfer.FileInfo.Layout.{length-to_bytes, of_bytes-to_bytes}

-- `encode` fills the start of any buffer that is large enough.
pub encode_lem :
    (buf : List ℕ) {f : FileInfo}
    → IsFileInfo f
    → sizeof_fileinfo ≤ length buf
    → encode buf f ≡ ok (sizeof_fileinfo, to_bytes f ++ drop sizeof_fileinfo buf)
unfolding encode
encode_lem buf {f} v h =
    rw (memcpy_ok buf (to_bytes f) sizeof_fileinfo h (omega (arith, length-to_bytes v))) (
      ap (λ l. ok (sizeof_fileinfo, l ++ drop sizeof_fileinfo buf))
        (take_all sizeof_fileinfo (to_bytes f) (omega (arith, length-to_bytes v))))

-- Whatever stood in the structure, decoding a whole header gives the structure it was made from.
pub decode_lem :
    {f g : FileInfo} (rest : List ℕ)
    → IsFileInfo f
    → IsFileInfo g
    → decode g (to_bytes f ++ rest) sizeof_fileinfo ≡ ok f
unfolding decode
decode_lem {f} {g} rest vf vg =
    rw
      (
        memcpy_ok (to_bytes g) (to_bytes f ++ rest) sizeof_fileinfo
            (omega (arith, length-to_bytes vg))
            (omega (arith, length-to_bytes vf, length-append (to_bytes f) rest)),
        take-append sizeof_fileinfo (to_bytes f) rest (length-to_bytes vf),
        drop_all sizeof_fileinfo (to_bytes g) (omega (arith, length-to_bytes vg)),
        append-nil (to_bytes f),
      )
      (ap ok (of_bytes-to_bytes vf))

-- More bytes than the structure has are written past its end.
pub decode_overflow :
    (g : FileInfo) (buf : List ℕ) (n : ℕ)
    → IsFileInfo g
    → sizeof_fileinfo < n
    → decode g buf n ≡ fault
unfolding decode
decode_overflow g buf n v h =
    rw (memcpy_overflow (to_bytes g) buf n (omega (arith, length-to_bytes v)))

pub encode_overflow :
    (buf : List ℕ) (f : FileInfo) → length buf < sizeof_fileinfo → encode buf f ≡ fault
unfolding encode
encode_overflow buf f h = rw (memcpy_overflow buf (to_bytes f) sizeof_fileinfo h)

-- A valid structure that `encode` writes into a buffer of at least its size and `decode` reads
-- from there is the same afterwards, whatever valid structure `decode` overwrites.
pub decode-encode :
    (buf : List ℕ) (f g : FileInfo)
    → IsFileInfo f
    → IsFileInfo g
    → sizeof_fileinfo ≤ length buf
    → (encode buf f >>= λ (n, out). decode g out n) ≡ ok f
decode-encode buf f g vf vg h = rw (encode_lem buf vf h) (decode_lem _ vf vg)

-- Fewer bytes than the name has fill only the start of the name.
abbrev pub with_name_start : FileInfo → List ℕ → ℕ → FileInfo
with_name_start g buf n = record g { name = take n buf ++ drop n g.name }

module _ {g : FileInfo} (buf : List ℕ) (n : ℕ) (v : IsFileInfo g) (short : n ≤ maxlen)
    (enough : n ≤ length buf) where
  with_name_start-IsFileInfo : IsFileInfo (with_name_start g buf n)
  with_name_start-IsFileInfo = record {
    name_length = omega (
      arith,
      length-append (take n buf) (drop n g.name),
      length-take n buf,
      length-drop n g.name,
      v.name_length,
    );
    size_bound = v.size_bound;
    info_length = v.info_length;
  }

  -- If no more bytes than the name has arrive, `decode` stores them at the start of the name of a
  -- valid structure and leaves the rest of the name, the size and the digest as they were.
  pub decode_short : decode g buf n ≡ ok (with_name_start g buf n)
  unfolding decode to_bytes
  decode_short =
      rw
        (
          memcpy_ok (to_bytes g) buf n (omega (arith, length-to_bytes v)) enough,
          drop-append_le n g.name (le_bytes word g.size ++ g.info) (omega (arith, v.name_length)),
        )
        (ap (λ l. ok (of_bytes l))
            (sym (append_assoc (take n buf) (drop n g.name) (le_bytes word g.size ++ g.info)))
          ∙ ap ok (of_bytes-to_bytes with_name_start-IsFileInfo))
