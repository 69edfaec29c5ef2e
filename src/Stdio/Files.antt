-- ===== src/Stdio/Files.antt =====
-- A file written is the one that is changed.
use net_file_transfer.Base.{
  ◌-◌, ◌≢◌, ap, ◌∙◌, false, ok, aborted, assert_some, ok-injective, ℕ, ◌≡◌, ◌≢◌, refl, sym, true,
  List, [], Option, some, Bool-cases, inl, inr, bytes_eq, bytes_eq_refl, eq_of_bytes_eq,
  bytes_eq-of_eq, subst, arith, ◌+◌,
}
use net_file_transfer.Log.{Log}
use net_file_transfer.Stdio.{
  World, SameWorld, FileName, Writing, put_file, fopen_wb, fclose, stored,
}

pub put_file_self :
    (files : FileName → Option (List ℕ)) (name : FileName) (bytes : List ℕ)
    → put_file files name bytes name ≡ some bytes
unfolding put_file
put_file_self files name bytes = rw (bytes_eq_refl name)

pub put_file_other :
    (files : FileName → Option (List ℕ)) (name other : FileName) (bytes : List ℕ)
    → other ≢ name
    → put_file files name bytes other ≡ files other
unfolding put_file
put_file_other files name other bytes ne = elim (Bool-cases (bytes_eq name other)) [
  | inl same ↦ absurd (ne (sym (eq_of_bytes_eq name other same)))
  | inr differ ↦ rw differ
]

-- A name is opened, and closed with the bytes that it was given.
abbrev pub opened : World → FileName → World
opened w name = record w { file = put_file w.file name [] }

pub fopen_wb_ok :
    (w : World) (name : FileName) → w.writable name ≡ true → fopen_wb w name ≡ some (opened w name)
unfolding fopen_wb
fopen_wb_ok w name h = rw h

aborted_ne_ok : {A : Type 0} {a : A} → aborted ≢ ok a
aborted_ne_ok e = cc

-- If `fopen` does not give NULL, the file is opened.
pub refused_name :
    (w : World) (name : List ℕ) → w.writable name ≡ false → assert_some (fopen_wb w name) ≡ aborted
unfolding fopen_wb
refused_name w name h = rw h

pub opened_inv :
    (w w' : World) (name : List ℕ) → assert_some (fopen_wb w name) ≡ ok w' → opened w name ≡ w'
unfolding fopen_wb
opened_inv w w' name e = elim (Bool-cases (w.writable name)) [
  | inl can ↦ ok-injective (sym (ap assert_some (fopen_wb_ok w name can)) ∙ e)
  | inr cannot ↦ absurd (aborted_ne_ok (sym (refused_name w name cannot) ∙ e))
]

-- What n bytes written leave of the world around the files: room for as many fewer, and the rest
-- as it was.
pub record Left (n : ℕ) (w w' : World) : Type 0 where
  pub space : w'.space ≡ w.space - n
  pub writable : w'.writable ≡ w.writable
  pub malloc : w'.malloc ≡ w.malloc
  pub pthread_create : w'.pthread_create ≡ w.pthread_create
  pub pthread_join : w'.pthread_join ≡ w.pthread_join

-- The log aside, on either side.
pub Left-logged :
    {n : ℕ} {w w' : World} (log : Log) → Left n w w' → Left n w (record w' { log = log })
Left-logged log left = record {
  space = left.space;
  writable = left.writable;
  malloc = left.malloc;
  pthread_create = left.pthread_create;
  pthread_join = left.pthread_join;
}

pub Left-SameWorld : {n : ℕ} {w v w' : World} → SameWorld w v → Left n v w' → Left n w w'
Left-SameWorld {n} same left = record {
  space = left.space ∙ ap (λ (u : World). u.space - n) same;
  writable = left.writable ∙ ap (λ (u : World). u.writable) same;
  malloc = left.malloc ∙ ap (λ (u : World). u.malloc) same;
  pthread_create = left.pthread_create ∙ ap (λ (u : World). u.pthread_create) same;
  pthread_join = left.pthread_join ∙ ap (λ (u : World). u.pthread_join) same;
}

module _ (w : World) (name : FileName) (bytes : List ℕ) (space : ℕ) where
  pub stored_self : (stored (opened w name) name bytes space).file name ≡ some bytes
  stored_self = put_file_self (put_file w.file name []) name bytes

  pub stored_other :
      (other : FileName)
      → other ≢ name
      → (stored (opened w name) name bytes space).file other ≡ w.file other
  stored_other other ne =
      rw (put_file_other (put_file w.file name []) name other bytes ne)
        (put_file_other w.file name other [] ne)

module _ (w : World) (name : FileName) (fp : Writing) where
  pub fclose_self : (fclose (opened w name) name fp).file name ≡ some fp.written
  unfolding fclose
  fclose_self = stored_self w name fp.written fp.space

  pub fclose_other :
      (other : FileName) → other ≢ name → (fclose (opened w name) name fp).file other ≡ w.file other
  unfolding fclose
  fclose_other other ne = stored_other w name fp.written fp.space other ne

  pub fclose-Left :
      (n : ℕ) (log : Log)
      → fp.space ≡ w.space - n
      → Left n w (record (fclose (opened w name) name fp) { log = log })
  unfolding fclose
  fclose-Left n log spent = record {
    space = spent;
    writable = refl;
    malloc = refl;
    pthread_create = refl;
    pthread_join = refl;
  }

pub Left-Left : {n k : ℕ} {w v u : World} → Left n w v → Left k v u → Left (n + k) w u
Left-Left left left' = record {
  space = omega (arith, left.space, left'.space);
  writable = left'.writable ∙ left.writable;
  malloc = left'.malloc ∙ left.malloc;
  pthread_create = left'.pthread_create ∙ left.pthread_create;
  pthread_join = left'.pthread_join ∙ left.pthread_join;
}

pub Left-none : (w : World) → Left 0 w w
Left-none w = record {
  space = omega arith;
  writable = refl;
  malloc = refl;
  pthread_create = refl;
  pthread_join = refl;
}

-- Adding a file changes that file alone.
pub put_file_unique :
    (files files' : FileName → Option (List ℕ)) (name content : List ℕ)
    → files' name ≡ some content
    → ((other : FileName) → other ≢ name → files' other ≡ files other)
    → (other : FileName) → files' other ≡ put_file files name content other
put_file_unique files files' name content stored others other =
    elim (Bool-cases (bytes_eq name other)) [
      | inl same ↦
          let e = eq_of_bytes_eq name other same in
          subst (λ x. files' x ≡ put_file files name content x) e
            (stored ∙ sym (put_file_self files name content))
      | inr differ ↦
          let ne : other ≢ name = λ e. ground (arith, differ, bytes_eq-of_eq name other (sym e)) in
          others other ne ∙ sym (put_file_other files name other content ne)
    ]
