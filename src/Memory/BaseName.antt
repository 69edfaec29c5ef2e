-- ===== src/Memory/BaseName.antt =====
-- What `basename` returns.
use net_file_transfer.Base.{
  ℕ, ◌≡◌, ◌≢◌, refl, ap, ◌∙◌, sym, ◌⊎◌, inl, inr, List, [], ◌∷◌, ◌++◌, reverse, arith, append_assoc,
  neq→==,
}
use mathlib.Core.List.{reverse-cons, reverse-reverse, reverse-append}
use net_file_transfer.Memory.{
  slash, basename, until_slash, skip_slashes, base_of_stripped, strip_slashes, or_all,
}

-- No '/' in a text.
abbrev pub NoSlash : List ℕ → Type 0
NoSlash [] = Unit {0}
NoSlash (c ∷ cs) = (c ≢ slash) × NoSlash cs

NoSlash-append : (xs ys : List ℕ) → NoSlash xs → NoSlash ys → NoSlash (xs ++ ys)
NoSlash-append [] ys h k = k
NoSlash-append (x ∷ xs) ys h k = (h.0, NoSlash-append xs ys h.1 k)

until_slash-NoSlash : (xs : List ℕ) → NoSlash (until_slash xs)
unfolding until_slash
until_slash-NoSlash [] = tt
until_slash-NoSlash (x ∷ xs) = ground (arith, until_slash-NoSlash xs)

NoSlash-reverse : (xs : List ℕ) → NoSlash xs → NoSlash (reverse xs)
NoSlash-reverse [] h = tt
NoSlash-reverse (x ∷ xs) h =
    rw (reverse-cons x xs) (NoSlash-append (reverse xs) (x ∷ []) (NoSlash-reverse xs h.1) (h.0, tt))

base_of_stripped_lem :
    (xs : List ℕ) → (base_of_stripped xs ≡ slash ∷ []) ⊎ NoSlash (base_of_stripped xs)
unfolding base_of_stripped
base_of_stripped_lem [] = inl refl
base_of_stripped_lem (x ∷ xs) = inr (NoSlash-reverse _ (until_slash-NoSlash (x ∷ xs)))

-- A base name names an entry of the working directory, or the root.
pub basename-NoSlash : (t : List ℕ) → (basename t ≡ slash ∷ []) ⊎ NoSlash (basename t)
unfolding basename
basename-NoSlash [] = inr (ground arith, tt)
basename-NoSlash (c ∷ cs) = base_of_stripped_lem (skip_slashes (reverse (c ∷ cs)))

until_slash-append : (xs ys : List ℕ) → NoSlash xs → until_slash (xs ++ slash ∷ ys) ≡ xs
unfolding until_slash
until_slash-append [] ys h = refl
until_slash-append (x ∷ xs) ys h = ground (arith, until_slash-append xs ys h.1)

-- The last of a non-empty name is no '/', so nothing is skipped behind it.
based :
    (xs ys : List ℕ)
    → xs ≢ []
    → NoSlash xs
    → base_of_stripped (skip_slashes (xs ++ slash ∷ ys)) ≡ reverse xs
unfolding base_of_stripped skip_slashes
based [] ys ne h = absurd (ne refl)
based (x ∷ xs) ys ne h = rw (neq→== x slash h.0) (ap reverse (until_slash-append (x ∷ xs) ys h))

of_nonempty : (t : List ℕ) → t ≢ [] → basename t ≡ base_of_stripped (skip_slashes (reverse t))
unfolding basename
of_nonempty [] ne = absurd (ne refl)
of_nonempty (c ∷ cs) ne = refl

reverse_ne_nil : (xs : List ℕ) → xs ≢ [] → reverse xs ≢ []
reverse_ne_nil xs ne e = ne (sym (reverse-reverse xs) ∙ ap reverse e)

append_ne_nil : (xs : List ℕ) (c : ℕ) (ys : List ℕ) → xs ++ c ∷ ys ≢ []
append_ne_nil [] c ys e = cc
append_ne_nil (x ∷ xs) c ys e = cc

reversed : (dir name : List ℕ) → reverse (dir ++ slash ∷ name) ≡ reverse name ++ slash ∷ reverse dir
reversed dir name =
    reverse-append dir (slash ∷ name)
    ∙ ap (λ l. l ++ reverse dir) (reverse-cons slash name)
    ∙ append_assoc (reverse name) (slash ∷ []) (reverse dir)

-- Of a path it returns what stands behind the last '/'.
pub basename-path :
    (dir name : List ℕ) → name ≢ [] → NoSlash name → basename (dir ++ slash ∷ name) ≡ name
basename-path dir name ne h =
    of_nonempty (dir ++ slash ∷ name) (append_ne_nil dir slash name)
    ∙ ap (λ l. base_of_stripped (skip_slashes l)) (reversed dir name)
    ∙ based (reverse name) (reverse dir) (reverse_ne_nil name ne) (NoSlash-reverse name h)
    ∙ reverse-reverse name

-- A name with no '/' is its own base name.
until_slash_all : (xs : List ℕ) → NoSlash xs → until_slash xs ≡ xs
unfolding until_slash
until_slash_all [] h = refl
until_slash_all (x ∷ xs) h = ground (arith, until_slash_all xs h.1)

based_all : (xs : List ℕ) → xs ≢ [] → NoSlash xs → base_of_stripped (skip_slashes xs) ≡ reverse xs
unfolding base_of_stripped skip_slashes
based_all [] ne h = absurd (ne refl)
based_all (x ∷ xs) ne h = rw (neq→== x slash h.0) (ap reverse (until_slash_all (x ∷ xs) h))

pub basename-name : (name : List ℕ) → name ≢ [] → NoSlash name → basename name ≡ name
basename-name name ne h =
    of_nonempty name ne
    ∙ based_all (reverse name) (reverse_ne_nil name ne) (NoSlash-reverse name h)
    ∙ reverse-reverse name

-- A text whose last part is no empty name keeps all of it.
unstripped :
    (t xs ys : List ℕ)
    → xs ≢ []
    → NoSlash xs
    → or_all t (skip_slashes (xs ++ ys)) ≡ reverse (xs ++ ys)
unfolding or_all skip_slashes
unstripped t [] ys ne h = absurd (ne refl)
unstripped t (x ∷ xs) ys ne h = rw (neq→== x slash h.0) refl

pub strip_slashes-path :
    (dir name : List ℕ)
    → name ≢ []
    → NoSlash name
    → strip_slashes (dir ++ slash ∷ name) ≡ dir ++ slash ∷ name
unfolding strip_slashes
strip_slashes-path dir name ne h =
    let path = dir ++ slash ∷ name in
    ap (λ l. or_all path (skip_slashes l)) (reversed dir name)
    ∙ unstripped path (reverse name) (slash ∷ reverse dir) (reverse_ne_nil name ne)
        (NoSlash-reverse name h)
    ∙ ap reverse (sym (reversed dir name))
    ∙ reverse-reverse path
