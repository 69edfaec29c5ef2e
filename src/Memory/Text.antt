-- ===== src/Memory/Text.antt =====
-- What `strcpy` and `snprintf` leave in an array.
use net_file_transfer.Base.{
  ok-injective, >>=-eq-ok, sym, ◌⊎◌, inl, inr, Bool-cases, ℕ, zero, suc, ◌+◌, ◌-◌, ◌<◌, ◌≤◌, ◌≡◌,
  ◌≢◌, refl, ap, List, [], ◌∷◌, ◌++◌, ok, fault, arith, length, take, drop, ◌==◌, length-append,
  length-take, length-drop, append_assoc, take_all,
}
use net_file_transfer.Memory.{memcpy, text, strcpy, snprintf_s}

-- A C string has no NUL inside.
abbrev pub IsText : List ℕ → Type 0
IsText [] = Unit {0}
IsText (c ∷ cs) = (c ≢ 0) × IsText cs

-- A text, its NUL, and whatever stands behind.
pub text_lem : (t rest : List ℕ) → IsText t → text (t ++ 0 ∷ rest) ≡ ok t
unfolding text
text_lem [] rest h = refl
text_lem (c ∷ cs) rest h = ground (arith, text_lem cs rest h.1)

text_cases :
    (c : ℕ) (cs t : List ℕ)
    → text (c ∷ cs) ≡ ok t
    → ((c ≡ 0) × (t ≡ [])) ⊎ ((t' : List ℕ) × (c ≢ 0) × (text cs ≡ ok t') × (t ≡ c ∷ t'))
unfolding text
text_cases c cs t e = elim (Bool-cases (c == 0)) [
  | inl end ↦ inl (ground arith, sym (ok-injective (rw end at e)))
  | inr more ↦
      let (t', f, g) = >>=-eq-ok (text cs) (λ t. ok (c ∷ t)) (rw more at e) in
      inr (t', ground arith, f, sym (ok-injective g))
]

pub text-IsText : (array t : List ℕ) → text array ≡ ok t → IsText t
text-IsText [] t e = unfold text in cc
text-IsText (c ∷ cs) t e = elim (text_cases c cs t e) [
  | inl (_, nil) ↦ rw nil tt
  | inr (t', ne, f, more) ↦ rw more (ne, text-IsText cs t' f)
]

pub length-text-lt : (array t : List ℕ) → text array ≡ ok t → length t < length array
length-text-lt [] t e = unfold text in cc
length-text-lt (c ∷ cs) t e = elim (text_cases c cs t e) [
  | inl (_, nil) ↦ rw nil (omega arith)
  | inr (t', ne, f, more) ↦ rw more (omega (arith, length-text-lt cs t' f))
]

pub memcpy_ok :
    (dst src : List ℕ) (n : ℕ)
    → n ≤ length dst
    → n ≤ length src
    → memcpy dst src n ≡ ok (take n src ++ drop n dst)
unfolding memcpy
memcpy_ok dst src n h k = ground arith

pub memcpy_overflow : (dst src : List ℕ) (n : ℕ) → length dst < n → memcpy dst src n ≡ fault
unfolding memcpy
memcpy_overflow dst src n h = ground arith

-- A text that fits is copied with its NUL, and the rest of the array stays.
pub strcpy_ok :
    (dst src t : List ℕ)
    → text src ≡ ok t
    → length t < length dst
    → strcpy dst src ≡ ok (t ++ 0 ∷ drop (length t + 1) dst)
unfolding strcpy
strcpy_ok dst src t e h =
    rw
      (
        e,
        memcpy_ok dst (t ++ 0 ∷ []) (length t + 1) (omega arith)
            (omega (arith, length-append t (0 ∷ []))),
      )
      (rw (take_all (length t + 1) (t ++ 0 ∷ []) (omega (arith, length-append t (0 ∷ []))))
        (ap ok (append_assoc t (0 ∷ []) (drop (length t + 1) dst))))

pub strcpy_overflow :
    (dst src t : List ℕ) → text src ≡ ok t → length dst ≤ length t → strcpy dst src ≡ fault
unfolding strcpy
strcpy_overflow dst src t e h =
    rw e (memcpy_overflow dst (t ++ 0 ∷ []) (length t + 1) (omega arith))

-- `snprintf` never overruns an array of the size that it is told.
pub snprintf_s_ok :
    (dst src t : List ℕ) (size : ℕ)
    → text src ≡ ok t
    → 0 < size
    → size ≤ length dst
    → snprintf_s dst size src
      ≡ ok (take (size - 1) t ++ 0 ∷ drop (length (take (size - 1) t) + 1) dst)
unfolding snprintf_s
snprintf_s_ok dst src t size e pos fits =
    let kept = take (size - 1) t in
    rw
      (
        e,
        memcpy_ok dst (kept ++ 0 ∷ []) (length kept + 1) (omega (arith, length-take (size - 1) t))
            (omega (arith, length-append kept (0 ∷ []))),
      )
      (rw (take_all (length kept + 1) (kept ++ 0 ∷ []) (omega (arith, length-append kept (0 ∷ []))))
        (ap ok (append_assoc kept (0 ∷ []) (drop (length kept + 1) dst))))

pub IsText-take : (n : ℕ) (t : List ℕ) → IsText t → IsText (take n t)
IsText-take zero t h = tt
IsText-take (suc n) [] h = tt
IsText-take (suc n) (c ∷ cs) h = (h.0, IsText-take n cs h.1)

pub memcpy_inv :
    (dst src out : List ℕ) (n : ℕ)
    → memcpy dst src n ≡ ok out
    → (n ≤ length dst) × (n ≤ length src) × (take n src ++ drop n dst ≡ out)
unfolding memcpy
memcpy_inv dst src out n e = ground arith

-- Whatever is copied, the array keeps its length.
pub length-memcpy :
    (dst src out : List ℕ) (n : ℕ) → memcpy dst src n ≡ ok out → length out ≡ length dst
length-memcpy dst src out n e =
    let (fits, enough, same) = memcpy_inv dst src out n e in
    rw (← same)
      (omega (arith, length-append (take n src) (drop n dst), length-take n src, length-drop n dst))

pub length-strcpy : (dst src out : List ℕ) → strcpy dst src ≡ ok out → length out ≡ length dst
unfolding strcpy
length-strcpy dst src out e =
    let (t, _, f) = >>=-eq-ok (text src) (λ t. memcpy dst (t ++ 0 ∷ []) (length t + 1)) e in
    length-memcpy dst (t ++ 0 ∷ []) out (length t + 1) f

-- What is copied into an array that it fits can be read there.
pub strcpy-text :
    (dst src t : List ℕ)
    → text src ≡ ok t
    → length t < length dst
    → (out : List ℕ) × (strcpy dst src ≡ ok out) × (text out ≡ ok t) × (length out ≡ length dst)
strcpy-text dst src t e h =
    let copied = strcpy_ok dst src t e h in
    (
      t ++ 0 ∷ drop (length t + 1) dst,
      copied,
      text_lem t (drop (length t + 1) dst) (text-IsText src t e),
      length-strcpy dst src _ copied,
    )
