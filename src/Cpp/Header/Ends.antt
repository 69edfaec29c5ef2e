-- ===== src/Cpp/Header/Ends.antt =====
-- `encode_fileinfo` and `decode_fileinfo` need no fuel.
use net_file_transfer.Base.{
  ℕ, ◌-◌, ◌^◌, ltb, take, drop, if◌then◌else◌, Bool, true, false, zero, suc, ◌+◌, List, [], ◌∷◌,
  Outcome, ok, ◌>>◌, Ends, Ends-bind, Whatever, require, Bool-cases, inl, inr, ◌==◌, leb, length,
}
use net_file_transfer.Memory.{text}
use net_file_transfer.Memory.Decimal.{decimal}
use net_file_transfer.Config.{CInt, atoi, signed, skip_spaces}
use net_file_transfer.Cpp.Header.{
  store, store_all, encode_fileinfo, offset, decode_fileinfo, num_to_str, to_size, sep_char,
  sep_len,
}

store-Ends : (a : List ℕ) (i v : ℕ) → Ends Whatever (store a i v)
unfolding store
store-Ends [] i v = tt
store-Ends (x ∷ xs) zero v = tt
store-Ends (x ∷ xs) (suc i) v =
    Ends-bind Whatever Whatever (store xs i v) _ (store-Ends xs i v) (λ _ _. tt)

store_all-Ends : (a : List ℕ) (i : ℕ) (vs : List ℕ) → Ends Whatever (store_all a i vs)
unfolding store_all
store_all-Ends a i [] = tt
store_all-Ends a i (v ∷ vs) =
    Ends-bind Whatever Whatever (store a i v) _ (store-Ends a i v)
      (λ a' _. store_all-Ends a' (i + 1) vs)

required :
    {A : Type 0} (b : Bool) (next : Outcome A)
    → Ends Whatever next
    → Ends Whatever (require b >> next)
required true next h = h
required false next h = tt

pub encode_fileinfo-Ends : (a filename : List ℕ) → Ends Whatever (encode_fileinfo a filename)
unfolding encode_fileinfo num_to_str
encode_fileinfo-Ends a filename =
    let tmp = decimal 20 (length filename) in
    let len = length tmp in
    Ends-bind Whatever Whatever (store_all a 0 tmp) _ (store_all-Ends a 0 tmp) (λ a₁ _.
      Ends-bind Whatever Whatever (store a₁ len sep_char) _ (store-Ends a₁ len sep_char) (λ a₂ _.
        Ends-bind Whatever Whatever (store a₂ (len + 1) sep_char)
          (λ a₃. store_all a₃ (len + sep_len) filename) (store-Ends a₂ (len + 1) sep_char)
          (λ a₃ _. store_all-Ends a₃ (len + sep_len) filename)))

pub text-Ends : (array : List ℕ) → Ends Whatever (text array)
unfolding text
text-Ends [] = tt
text-Ends (c ∷ cs) = elim (Bool-cases (c == 0)) [
  | inl nul ↦ rw nul tt
  | inr more ↦ rw more (Ends-bind Whatever Whatever (text cs) _ (text-Ends cs) (λ _ _. tt))
]

pub atoi-Ends : (array : List ℕ) → Ends Whatever (atoi array)
unfolding atoi
atoi-Ends array = Ends-bind Whatever Whatever (text array) _ (text-Ends array) (λ t _.
    let v = signed (skip_spaces t) in
    required (if v.negative then leb v.magnitude (2 ^ 31) else ltb v.magnitude (2 ^ 31)) (ok v) tt)

offset-Ends : (base : ℕ) (n : CInt) → Ends Whatever (offset base n)
unfolding offset
offset-Ends base n = elim (Bool-cases n.negative) [
  | inl negative ↦ rw negative (required (leb n.magnitude base) (ok (base - n.magnitude)) tt)
  | inr positive ↦ rw positive tt
]

pub decode_fileinfo-Ends : (a : List ℕ) → Ends Whatever (decode_fileinfo a)
unfolding decode_fileinfo num_to_str
decode_fileinfo-Ends a = Ends-bind Whatever Whatever (atoi a) _ (atoi-Ends a) (λ n _.
    let first = length (decimal 20 (to_size n)) + sep_len in
    Ends-bind Whatever Whatever (offset first n) _ (offset-Ends first n) (λ last _.
      let filename = take (last - first) (drop first a) in
      required (leb first last) (require (leb last (length a)) >> ok filename)
        (required (leb last (length a)) (ok filename) tt)))
