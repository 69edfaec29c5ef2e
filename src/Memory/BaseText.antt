-- ===== src/Memory/BaseText.antt =====
-- The base name of a text is a text, and fits where the text fits.
use net_file_transfer.Base.{
  ℕ, ok, ok, ◌≤◌, ◌<◌, ◌≡◌, refl, List, [], ◌∷◌, ◌++◌, reverse, length, length-append, arith,
}
use mathlib.Core.List.{reverse-cons}
use net_file_transfer.Memory.{
  text, strcpy, basename, until_slash, skip_slashes, base_of_stripped, strip_slashes, or_all,
}
use net_file_transfer.Memory.Text.{IsText, strcpy-text, text_lem, text-IsText, length-text-lt}

IsText-append : (xs ys : List ℕ) → IsText xs → IsText ys → IsText (xs ++ ys)
IsText-append [] ys h k = k
IsText-append (x ∷ xs) ys h k = (h.0, IsText-append xs ys h.1 k)

IsText-reverse : (xs : List ℕ) → IsText xs → IsText (reverse xs)
IsText-reverse [] h = tt
IsText-reverse (x ∷ xs) h =
    rw (reverse-cons x xs) (IsText-append (reverse xs) (x ∷ []) (IsText-reverse xs h.1) (h.0, tt))

length-reverse : (xs : List ℕ) → length (reverse xs) ≡ length xs
length-reverse [] = refl
length-reverse (x ∷ xs) =
    rw (reverse-cons x xs) (omega (arith, length-append (reverse xs) (x ∷ []), length-reverse xs))

-- Parts of a text.
until_slash-IsText : (xs : List ℕ) → IsText xs → IsText (until_slash xs)
unfolding until_slash
until_slash-IsText [] h = tt
until_slash-IsText (x ∷ xs) h = ground (arith, until_slash-IsText xs h.1, h)

length-until_slash : (xs : List ℕ) → length (until_slash xs) ≤ length xs
unfolding until_slash
length-until_slash [] = omega arith
length-until_slash (x ∷ xs) = ground (arith, length-until_slash xs)

skip_slashes-IsText : (xs : List ℕ) → IsText xs → IsText (skip_slashes xs)
unfolding skip_slashes
skip_slashes-IsText [] h = tt
skip_slashes-IsText (x ∷ xs) h = ground (arith, skip_slashes-IsText xs h.1, h)

length-skip_slashes : (xs : List ℕ) → length (skip_slashes xs) ≤ length xs
unfolding skip_slashes
length-skip_slashes [] = omega arith
length-skip_slashes (x ∷ xs) = ground (arith, length-skip_slashes xs)

base_of_stripped-IsText : (xs : List ℕ) → IsText xs → IsText (base_of_stripped xs)
unfolding base_of_stripped
base_of_stripped-IsText [] h = (omega arith, tt)
base_of_stripped-IsText (x ∷ xs) h = IsText-reverse _ (until_slash-IsText (x ∷ xs) h)

length-base_of_stripped :
    (xs : List ℕ) (n : ℕ) → length xs ≤ n → 0 < n → length (base_of_stripped xs) ≤ n
unfolding base_of_stripped
length-base_of_stripped [] n h pos = omega arith
length-base_of_stripped (x ∷ xs) n h pos =
    omega (arith, length-reverse (until_slash (x ∷ xs)), length-until_slash (x ∷ xs))

pub basename-IsText : (t : List ℕ) → IsText t → IsText (basename t)
unfolding basename
basename-IsText [] h = (omega arith, tt)
basename-IsText (c ∷ cs) h =
    base_of_stripped-IsText (skip_slashes (reverse (c ∷ cs)))
      (skip_slashes-IsText (reverse (c ∷ cs)) (IsText-reverse (c ∷ cs) h))

pub length-basename : (t : List ℕ) (n : ℕ) → length t ≤ n → 0 < n → length (basename t) ≤ n
unfolding basename
length-basename [] n h pos = omega arith
length-basename (c ∷ cs) n h pos =
    length-base_of_stripped (skip_slashes (reverse (c ∷ cs))) n
      (omega (arith, length-skip_slashes (reverse (c ∷ cs)), length-reverse (c ∷ cs))) pos

or_all-IsText : (t xs : List ℕ) → IsText t → IsText xs → IsText (or_all t xs)
unfolding or_all
or_all-IsText t [] h k = h
or_all-IsText t (x ∷ xs) h k = IsText-reverse (x ∷ xs) k

length-or_all : (t xs : List ℕ) → length xs ≤ length t → length (or_all t xs) ≤ length t
unfolding or_all
length-or_all t [] h = omega arith
length-or_all t (x ∷ xs) h = omega (arith, length-reverse (x ∷ xs))

-- Without its trailing slashes it is still a text, and no longer.
pub strip_slashes-IsText : (t : List ℕ) → IsText t → IsText (strip_slashes t)
unfolding strip_slashes
strip_slashes-IsText t h =
    or_all-IsText t (skip_slashes (reverse t)) h
      (skip_slashes-IsText (reverse t) (IsText-reverse t h))

pub length-strip_slashes : (t : List ℕ) → length (strip_slashes t) ≤ length t
unfolding strip_slashes
length-strip_slashes t =
    length-or_all t (skip_slashes (reverse t))
      (omega (arith, length-skip_slashes (reverse t), length-reverse t))

-- Written over the text that it came from, it fits.
pub strip_slashes-strcpy :
    (array t : List ℕ)
    → text array ≡ ok t
    → (out : List ℕ) × (strcpy array (strip_slashes t ++ 0 ∷ []) ≡ ok out)
      × (text out ≡ ok (strip_slashes t))
      × (length out ≡ length array)
strip_slashes-strcpy array t e =
    strcpy-text array (strip_slashes t ++ 0 ∷ []) (strip_slashes t)
      (text_lem (strip_slashes t) [] (strip_slashes-IsText t (text-IsText array t e)))
      (omega (arith, length-strip_slashes t, length-text-lt array t e))
