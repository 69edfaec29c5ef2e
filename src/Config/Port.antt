-- ===== src/Config/Port.antt =====
-- The option -p: the number that a decimal text denotes.
use net_file_transfer.Base.{
  ℕ, zero, suc, ◌+◌, ◌-◌, ◌*◌, ◌/◌, ◌%◌, ◌^◌, ◌<◌, ◌≤◌, ◌≡◌, refl, ◌∙◌, List, [], ◌∷◌, ◌++◌, some,
  ok, arith, Bool-cases, inl, inr, false, ltb, lt→ltb,
}
use net_file_transfer.Memory.{text}
use net_file_transfer.Memory.Decimal.{decimal, AreDigits, decimal-AreDigits, below_ten, div_ten-lt}
use net_file_transfer.Config.{Parameter, parse_option, digits, atoi, signed, skip_spaces, to_short}

digits-append :
    (acc : ℕ) (xs : List ℕ) (c : ℕ)
    → AreDigits xs
    → 48 ≤ c
    → c ≤ 57
    → digits acc (xs ++ c ∷ []) ≡ digits acc xs * 10 + (c - 48)
unfolding digits
digits-append acc [] c h lo hi = ground arith
digits-append acc (x ∷ xs) c h lo hi =
    ground (arith, digits-append (acc * 10 + (x - 48)) xs c h.2 lo hi)

pub digits-decimal : (k n : ℕ) → n < 10 ^ k → digits 0 (decimal k n) ≡ n
unfolding decimal digits
digits-decimal zero n h = omega arith
digits-decimal (suc k) n h = elim (Bool-cases (ltb n 10)) [
  | inl small ↦ ground (arith, below_ten n small)
  | inr large ↦ rw large (
      digits-append 0 (decimal k (n / 10)) (48 + n % 10) (decimal-AreDigits k (n / 10))
        (omega arith) (omega arith)
      ∙ omega (arith, digits-decimal k (n / 10) (div_ten-lt k n h)))
]

skip_spaces-AreDigits : (xs : List ℕ) → AreDigits xs → skip_spaces xs ≡ xs
unfolding skip_spaces
skip_spaces-AreDigits [] h = refl
skip_spaces-AreDigits (x ∷ xs) h = ground arith

signed-AreDigits :
    (xs : List ℕ) → AreDigits xs → signed xs ≡ record { negative = false; magnitude = digits 0 xs }
unfolding signed digits
signed-AreDigits [] h = refl
signed-AreDigits (x ∷ xs) h = ground arith

pub atoi-AreDigits :
    (array xs : List ℕ)
    → text array ≡ ok xs
    → AreDigits xs
    → digits 0 xs < 2 ^ 31
    → atoi array ≡ ok (record { negative = false; magnitude = digits 0 xs })
unfolding atoi
atoi-AreDigits array xs e h small =
    rw (e, skip_spaces-AreDigits xs h, signed-AreDigits xs h, lt→ltb (digits 0 xs) (2 ^ 31) small)

-- The option -p with the decimal text of a number below 2^31 makes the number's lower 16 bits the
-- port, and changes nothing else.
pub parse_option-decimal :
    (p : Parameter) (opterr k n : ℕ) (array : List ℕ)
    → text array ≡ ok (decimal k n)
    → n < 10 ^ k
    → n < 2 ^ 31
    → parse_option p opterr (record { ch = b'p'; optarg = some array })
      ≡ ok (record p { port = n % 2 ^ 16 }, opterr)
unfolding parse_option to_short
parse_option-decimal p opterr k n array e enough small =
    let value = digits-decimal k n enough in
    rw (atoi-AreDigits array (decimal k n) e (decimal-AreDigits k n) (omega (arith, value)), value)
