-- ===== src/Cpp/Header/Limits.antt =====
-- The names and the announced lengths that the array has room for.
use net_file_transfer.Base.{
  ℕ, ◌+◌, ◌-◌, ◌%◌, ◌^◌, ◌<◌, ◌≤◌, ◌≡◌, ◌↔◌, sym, ap, ◌∙◌, List, ok, fault, ◌≢◌, false, le→leb, ltb,
  ltb→lt, not_ltb→le, Bool-cases, inl, inr, arith, length, take, drop,
}
use net_file_transfer.Memory.{text}
use net_file_transfer.Memory.Decimal.{decimal, decimal-AreDigits, length-decimal-fits}
use net_file_transfer.Config.{atoi, digits}
use net_file_transfer.Config.Port.{digits-decimal, atoi-AreDigits}
use net_file_transfer.Cpp.Header.{max_filename_len, encode_fileinfo, decode_fileinfo}
use net_file_transfer.Cpp.Header.RoundTrip.{encode_fileinfo-announced, encode_fileinfo-fault}
use net_file_transfer.Cpp.Header.Bounds.{decode_fileinfo-fault}

ok_ne_fault : {A : Type 0} {a : A} → ok a ≢ fault
ok_ne_fault e = cc

-- `encode_fileinfo` leaves an array of the declared size exactly if the name has more than 123
-- bytes.
pub encode_fileinfo_limit :
    (a filename : List ℕ)
    → length a ≡ max_filename_len
    → (encode_fileinfo a filename ≡ fault) ↔ (123 < length filename)
encode_fileinfo_limit a filename size = (
  λ e. elim (Bool-cases (ltb 123 (length filename))) [
    | inl large ↦ ltb→lt 123 (length filename) large
    | inr small ↦
        let (_, written, _) =
          encode_fileinfo-announced a filename size (not_ltb→le 123 (length filename) small) in
        absurd (ok_ne_fault (sym written ∙ e))
  ],
  encode_fileinfo-fault a filename size,
)

-- If the text at the start of an array of the declared size is the decimal text, with at most k
-- digits, of a number n below 2^31, `decode_fileinfo` returns the n bytes behind that text and its
-- two separators if n is at most 123, and reads past the end of the array if it is more.
pub decode_fileinfo_limit :
    (a : List ℕ) (k n : ℕ)
    → length a ≡ max_filename_len
    → text a ≡ ok (decimal k n)
    → n < 10 ^ k
    → n < 2 ^ 31
    → (n ≤ 123 → decode_fileinfo a ≡ ok (take n (drop (length (decimal 20 n) + 2) a)))
      × (123 < n → decode_fileinfo a ≡ fault)
unfolding decode_fileinfo
decode_fileinfo_limit a k n size announced enough small = (
  λ fits.
      let value : digits 0 (decimal k n) ≡ n = digits-decimal k n enough in
      let read : atoi a ≡ ok (record { negative = false; magnitude = n }) =
        atoi-AreDigits a (decimal k n) announced (decimal-AreDigits k n) (omega (arith, value))
        ∙ ap (λ (m : ℕ). ok (record { negative = false; magnitude = m })) value in
      let whole : n % 2 ^ 64 ≡ n = omega arith in
      let t = length (decimal 20 n) in
      let count : t + 2 + n - (t + 2) ≡ n = omega arith in
      rw (
        read,
        whole,
        le→leb (t + 2) (t + 2 + n) (omega arith),
        le→leb (t + 2 + n) (length a) (omega (arith, size, length-decimal-fits n fits)),
        count,
      ),
  decode_fileinfo-fault a k n size announced enough small,
)
