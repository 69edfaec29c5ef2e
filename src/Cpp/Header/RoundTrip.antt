-- ===== src/Cpp/Header/RoundTrip.antt =====
-- A file name goes through `encode_fileinfo` and `decode_fileinfo` unchanged.
use net_file_transfer.Base.{
  ℕ, ◌+◌, ◌-◌, ◌%◌, ◌^◌, ◌≤◌, ◌<◌, ◌≡◌, refl, sym, ap, ◌∙◌, List, [], ◌∷◌, ◌++◌, ok, fault, ◌>>=◌,
  length, take, drop, arith, false, append_assoc, length-append, length-drop, take-append,
  drop-append, le→leb,
}
use net_file_transfer.Memory.Text.{text_lem}
use net_file_transfer.Memory.Decimal.{
  decimal, decimal-AreDigits, AreDigits-IsText, length-decimal-fits, length-decimal-le,
  length-decimal-exceeds,
}
use net_file_transfer.Config.{atoi, digits}
use net_file_transfer.Config.Port.{digits-decimal, atoi-AreDigits}
use net_file_transfer.Cpp.Header.{
  max_filename_len, store, store_all, encode_fileinfo, decode_fileinfo,
}
use net_file_transfer.Cpp.Header.Store.{store_at, store_all_at, store_all_outside}

-- The layout: the text of the length, the separator, the name, and what stands behind.
abbrev pub announced : List ℕ → List ℕ → List ℕ → List ℕ
announced digits filename rest = digits ++ 0 ∷ 0 ∷ (filename ++ rest)

-- The second separator, behind the first.
second_separator :
    (t rest : List ℕ) (y : ℕ)
    → store (t ++ 0 ∷ y ∷ rest) (length t + 1) 0 ≡ ok ((t ++ 0 ∷ 0 ∷ []) ++ rest)
second_separator t rest y =
    ap (λ a. store a (length t + 1) 0) (sym (append_assoc t (0 ∷ []) (y ∷ rest)))
    ∙ store_at (t ++ 0 ∷ []) rest y 0 (length t + 1) (omega (arith, length-append t (0 ∷ [])))
    ∙ ap ok (append_assoc t (0 ∷ []) (0 ∷ rest) ∙ sym (append_assoc t (0 ∷ 0 ∷ []) rest))

-- What is done behind the length's digits.
behind_digits :
    (t filename rest : List ℕ)
    → 2 ≤ length rest
    → (store (t ++ rest) (length t) 0 >>= λ a.
        store a (length t + 1) 0 >>= λ a'. store_all a' (length t + 2) filename)
      ≡ store_all ((t ++ 0 ∷ 0 ∷ []) ++ drop 2 rest) (length t + 2) filename
behind_digits t filename [] h = absurd (omega arith)
behind_digits t filename (x ∷ []) h = absurd (omega arith)
behind_digits t filename (x ∷ y ∷ rest) h =
    rw (store_at t (y ∷ rest) x 0 (length t) refl, second_separator t rest y)

module _ (a filename : List ℕ) (size : length a ≡ max_filename_len) where
  -- `encode_fileinfo` comes down to the stores of the name.
  pub encode_fileinfo_lem :
      encode_fileinfo a filename
      ≡ store_all
          ((decimal 20 (length filename) ++ 0 ∷ 0 ∷ [])
            ++ drop 2 (drop (length (decimal 20 (length filename))) a))
          (length (decimal 20 (length filename)) + 2)
          filename
  unfolding encode_fileinfo
  encode_fileinfo_lem =
      let t = decimal 20 (length filename) in
      rw (store_all_at [] a t 0 refl (omega (arith, length-decimal-le 20 (length filename)))) (
        behind_digits t filename (drop (length t) a)
          (omega (arith, length-drop (length t) a, length-decimal-le 20 (length filename))))

pub encode_fileinfo-announced :
    (a filename : List ℕ)
    → length a ≡ max_filename_len
    → length filename ≤ 123
    → (rest : List ℕ) × (encode_fileinfo a filename
        ≡ ok (announced (decimal 20 (length filename)) filename rest))
      × (length (announced (decimal 20 (length filename)) filename rest) ≡ max_filename_len)
encode_fileinfo-announced a filename size fits =
    let t = decimal 20 (length filename) in
    let behind = drop 2 (drop (length t) a) in
    let rest = drop (length filename) behind in
    let places : length behind ≡ 126 - length t =
      omega (arith, size, length-drop 2 (drop (length t) a), length-drop (length t) a) in
    let room = length-decimal-fits (length filename) fits in
    (
      rest,
      encode_fileinfo_lem a filename size
          ∙ store_all_at (t ++ 0 ∷ 0 ∷ []) behind filename (length t + 2)
              (omega (arith, length-append t (0 ∷ 0 ∷ []))) (omega (arith, places))
          ∙ ap ok (append_assoc t (0 ∷ 0 ∷ []) (filename ++ rest)),
      omega (
        arith,
        places,
        length-append t (0 ∷ 0 ∷ (filename ++ rest)),
        length-append filename rest,
        length-drop (length filename) behind,
      ),
    )

-- The array after a name that fits, and the other way round.
module _ (filename rest : List ℕ) (fits : length filename ≤ 123) where
  announced_size :
      atoi (announced (decimal 20 (length filename)) filename rest)
      ≡ ok (record { negative = false; magnitude = length filename })
  announced_size =
      let n = length filename in
      let t = decimal 20 n in
      let value : digits 0 t ≡ n = digits-decimal 20 n (omega arith) in
      atoi-AreDigits (announced t filename rest) t
        (text_lem t (0 ∷ (filename ++ rest)) (AreDigits-IsText t (decimal-AreDigits 20 n)))
        (decimal-AreDigits 20 n) (omega (arith, value))
      ∙ ap (λ (m : ℕ). ok (record { negative = false; magnitude = m })) value

  between :
      (t : List ℕ)
      → take
          (length t + 2 + length filename - (length t + 2))
          (drop (length t + 2) (announced t filename rest))
        ≡ filename
  between t =
      let n : length t + 2 + length filename - (length t + 2) ≡ length filename = omega arith in
      ap (λ k. take k (drop (length t + 2) (announced t filename rest))) n
      ∙ ap (λ a. take (length filename) (drop (length t + 2) a))
          (sym (append_assoc t (0 ∷ 0 ∷ []) (filename ++ rest)))
      ∙ ap (take (length filename)) (
          drop-append (length t + 2) (t ++ 0 ∷ 0 ∷ []) (filename ++ rest)
            (length-append t (0 ∷ 0 ∷ [])))
      ∙ take-append (length filename) filename rest refl

  pub decode_fileinfo-announced :
      length (announced (decimal 20 (length filename)) filename rest) ≡ max_filename_len
      → decode_fileinfo (announced (decimal 20 (length filename)) filename rest) ≡ ok filename
  unfolding decode_fileinfo
  decode_fileinfo-announced size =
      let n = length filename in
      let t = decimal 20 n in
      let whole : n % 2 ^ 64 ≡ n = omega arith in
      rw (
        announced_size,
        whole,
        le→leb (length t + 2) (length t + 2 + n) (omega arith),
        le→leb (length t + 2 + n) (length (announced t filename rest))
            (omega (arith, size, length-decimal-fits n fits)),
        between t,
      )

-- A name of at most 123 bytes that `encode_fileinfo` writes into an array of the declared size is
-- what `decode_fileinfo` finds there, whatever the array held before.
pub decode_fileinfo-encode_fileinfo :
    (a filename : List ℕ)
    → length a ≡ max_filename_len
    → length filename ≤ 123
    → (encode_fileinfo a filename >>= decode_fileinfo) ≡ ok filename
decode_fileinfo-encode_fileinfo a filename size fits =
    let (rest, written, same) = encode_fileinfo-announced a filename size fits in
    rw written (decode_fileinfo-announced filename rest fits same)

-- With a name of more than 123 bytes `encode_fileinfo` writes past the end of an array of the
-- declared size.
pub encode_fileinfo-fault :
    (a filename : List ℕ)
    → length a ≡ max_filename_len
    → 123 < length filename
    → encode_fileinfo a filename ≡ fault
encode_fileinfo-fault a filename size long =
    let t = decimal 20 (length filename) in
    encode_fileinfo_lem a filename size
    ∙ store_all_outside (t ++ 0 ∷ 0 ∷ []) (drop 2 (drop (length t) a)) filename (length t + 2)
        (omega (arith, length-append t (0 ∷ 0 ∷ [])))
        (omega (
          arith,
          size,
          length-drop 2 (drop (length t) a),
          length-drop (length t) a,
          length-decimal-exceeds (length filename) long,
        ))
