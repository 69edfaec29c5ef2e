-- ===== src/Cpp/Header/Bounds.antt =====
-- What `decode_fileinfo` makes of a length that the array has no room for.
use net_file_transfer.Base.{
  ℕ, ◌+◌, ◌%◌, ◌^◌, ◌<◌, ◌≡◌, ap, ◌∙◌, List, ok, fault, false, leb, le→leb, arith, length,
}
use net_file_transfer.Memory.{text}
use net_file_transfer.Memory.Decimal.{decimal, decimal-AreDigits, length-decimal-exceeds}
use net_file_transfer.Config.{atoi, digits}
use net_file_transfer.Config.Port.{digits-decimal, atoi-AreDigits}
use net_file_transfer.Cpp.Header.{max_filename_len, decode_fileinfo}

exceeds→leb : (a b : ℕ) → b < a → leb a b ≡ false
exceeds→leb a b h = ground arith

-- If the text at the start of an array of the declared size is the decimal text, with at most k
-- digits, of a number above 123 and below 2^31, `decode_fileinfo` reads past the end of the array.
pub decode_fileinfo-fault :
    (a : List ℕ) (k n : ℕ)
    → length a ≡ max_filename_len
    → text a ≡ ok (decimal k n)
    → n < 10 ^ k
    → n < 2 ^ 31
    → 123 < n
    → decode_fileinfo a ≡ fault
unfolding decode_fileinfo
decode_fileinfo-fault a k n size announced enough small large =
    let value : digits 0 (decimal k n) ≡ n = digits-decimal k n enough in
    let read : atoi a ≡ ok (record { negative = false; magnitude = n }) =
      atoi-AreDigits a (decimal k n) announced (decimal-AreDigits k n) (omega (arith, value))
      ∙ ap (λ (m : ℕ). ok (record { negative = false; magnitude = m })) value in
    let whole : n % 2 ^ 64 ≡ n = omega arith in
    rw (
      read,
      whole,
      le→leb (length (decimal 20 n) + 2) (length (decimal 20 n) + 2 + n) (omega arith),
      exceeds→leb (length (decimal 20 n) + 2 + n) (length a)
          (omega (arith, size, length-decimal-exceeds n large)),
    )
