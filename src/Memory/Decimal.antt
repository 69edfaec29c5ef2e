-- ===== src/Memory/Decimal.antt =====
-- The decimal text of a number, as `printf` with "%lu" writes it.
use net_file_transfer.Base.{
  ℕ, zero, suc, ◌+◌, ◌/◌, ◌%◌, ◌^◌, ◌<◌, ◌≤◌, ◌≡◌, List, [], ◌∷◌, ◌++◌, arith, Bool-cases, inl, inr,
  true, ltb, length, length-append, if◌then◌else◌,
}
use net_file_transfer.Memory.Text.{IsText}
use native.Mathlib.Omega.{pow_step}

-- The decimal text of a number, with at most so many digits.
unfoldable pub decimal : ℕ → ℕ → List ℕ
decimal zero n = []
decimal (suc k) n =
    let rest = decimal k (n / 10) ++ (48 + n % 10) ∷ [] in if ltb n 10 then (48 + n) ∷ [] else rest

pub below_ten : (n : ℕ) → ltb n 10 ≡ true → n < 10
below_ten n e = ground arith

abbrev pub AreDigits : List ℕ → Type 0
AreDigits [] = Unit {0}
AreDigits (c ∷ cs) = (48 ≤ c) × (c ≤ 57) × AreDigits cs

AreDigits-append : (xs ys : List ℕ) → AreDigits xs → AreDigits ys → AreDigits (xs ++ ys)
AreDigits-append [] ys h k = k
AreDigits-append (x ∷ xs) ys h k = (h.0, h.1, AreDigits-append xs ys h.2 k)

pub decimal-AreDigits : (k n : ℕ) → AreDigits (decimal k n)
unfolding decimal
decimal-AreDigits zero n = tt
decimal-AreDigits (suc k) n = elim (Bool-cases (ltb n 10)) [
  | inl small ↦ rw small ((omega arith), (omega (arith, below_ten n small)), tt)
  | inr large ↦ rw large (
      AreDigits-append (decimal k (n / 10)) _ (decimal-AreDigits k (n / 10))
        (omega arith, omega arith, tt))
]

pub div_ten-lt : (k n : ℕ) → n < 10 ^ suc k → n / 10 < 10 ^ k
div_ten-lt k n h = omega (arith, pow_step 10 k)

-- Digits are no NULs.
pub AreDigits-IsText : (xs : List ℕ) → AreDigits xs → IsText xs
AreDigits-IsText [] h = tt
AreDigits-IsText (x ∷ xs) h = (omega arith, AreDigits-IsText xs h.2)

length-decimal_step :
    (k n : ℕ) → 10 ≤ n → length (decimal (suc k) n) ≡ length (decimal k (n / 10)) + 1
unfolding decimal
length-decimal_step k n h = ground (arith, length-append (decimal k (n / 10)) ((48 + n % 10) ∷ []))

length-decimal_digit : (k n : ℕ) → n < 10 → length (decimal (suc k) n) ≡ 1
unfolding decimal
length-decimal_digit k n h = ground arith

length-decimal_pos : (k n : ℕ) → 1 ≤ length (decimal (suc k) n)
unfolding decimal
length-decimal_pos k n = ground (arith, length-append (decimal k (n / 10)) ((48 + n % 10) ∷ []))

-- How many digits a number has, as far as three.
pub length-decimal_two : (k n : ℕ) → 10 ≤ n → n < 100 → length (decimal (suc (suc k)) n) ≡ 2
length-decimal_two k n h h' =
    omega (arith, length-decimal_step (suc k) n h, length-decimal_digit k (n / 10) (omega arith))

pub length-decimal_three :
    (k n : ℕ) → 100 ≤ n → n < 1000 → length (decimal (suc (suc (suc k))) n) ≡ 3
length-decimal_three k n h h' = omega (
  arith,
  length-decimal_step (suc (suc k)) n (omega arith),
  length-decimal_two k (n / 10) (omega arith) (omega arith),
)

-- A number that fits behind its decimal text, and a separator of two, into 128 places.
pub length-decimal-fits : (n : ℕ) → n ≤ 123 → length (decimal 20 n) + 2 + n ≤ 128
length-decimal-fits n h = elim (Bool-cases (ltb n 10)) [
  | inl one ↦ omega (arith, length-decimal_digit 19 n (below_ten n one))
  | inr more ↦ elim (Bool-cases (ltb n 100)) [
    | inl two ↦ omega (arith, length-decimal_two 18 n (ground arith) (ground arith))
    | inr three ↦ omega (arith, length-decimal_three 17 n (ground arith) (omega arith))
  ]
]

pub length-decimal-exceeds : (n : ℕ) → 123 < n → 128 < length (decimal 20 n) + 2 + n
length-decimal-exceeds n h = omega (
  arith,
  length-decimal_step 19 n (omega arith),
  length-decimal_step 18 (n / 10) (omega arith),
  length-decimal_pos 17 (n / 10 / 10),
)

pub length-decimal-le : (k n : ℕ) → length (decimal k n) ≤ k
unfolding decimal
length-decimal-le zero n = omega arith
length-decimal-le (suc k) n =
    ground
      (arith, length-decimal-le k (n / 10), length-append (decimal k (n / 10)) ((48 + n % 10) ∷ []))
