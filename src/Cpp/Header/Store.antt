-- ===== src/Cpp/Header/Store.antt =====
-- Stores into an array one after the other.
use net_file_transfer.Base.{
  ℕ, zero, suc, ◌+◌, ◌≤◌, ◌<◌, ◌≡◌, refl, sym, ap, ◌∙◌, List, [], ◌∷◌, ◌++◌, ok, fault, length,
  drop, arith, append_assoc, length-append,
}
use net_file_transfer.Cpp.Header.{store, store_all}

pub store_at :
    (front rest : List ℕ) (x v i : ℕ)
    → i ≡ length front
    → store (front ++ x ∷ rest) i v ≡ ok (front ++ v ∷ rest)
unfolding store
store_at [] rest x v zero e = refl
store_at [] rest x v (suc i) e = absurd (omega arith)
store_at (c ∷ cs) rest x v zero e = absurd (omega arith)
store_at (c ∷ cs) rest x v (suc i) e = rw (store_at cs rest x v i (omega arith))

pub store_outside : (a : List ℕ) (i v : ℕ) → length a ≤ i → store a i v ≡ fault
unfolding store
store_outside [] i v h = refl
store_outside (x ∷ xs) zero v h = absurd (omega arith)
store_outside (x ∷ xs) (suc i) v h = rw (store_outside xs i v (omega arith))

-- Behind what was written, as many places are overwritten as there are values.
pub store_all_at :
    (front rest values : List ℕ) (i : ℕ)
    → i ≡ length front
    → length values ≤ length rest
    → store_all (front ++ rest) i values ≡ ok (front ++ (values ++ drop (length values) rest))
unfolding store_all
store_all_at front rest [] i e h = refl
store_all_at front [] (v ∷ vs) i e h = absurd (omega arith)
store_all_at front (x ∷ rest) (v ∷ vs) i e h = rw (store_at front rest x v i e) (
    ap (λ a. store_all a (i + 1) vs) (sym (append_assoc front (v ∷ []) rest))
    ∙ store_all_at (front ++ v ∷ []) rest vs (i + 1) (omega (arith, length-append front (v ∷ [])))
        (omega arith)
    ∙ ap ok (append_assoc front (v ∷ []) (vs ++ drop (length vs) rest)))

-- More values than there are places leave the array.
pub store_all_outside :
    (front rest values : List ℕ) (i : ℕ)
    → i ≡ length front
    → length rest < length values
    → store_all (front ++ rest) i values ≡ fault
unfolding store_all
store_all_outside front rest [] i e h = absurd (omega arith)
store_all_outside front [] (v ∷ vs) i e h =
    rw (store_outside (front ++ []) i v (omega (arith, length-append front [])))
store_all_outside front (x ∷ rest) (v ∷ vs) i e h = rw (store_at front rest x v i e) (
    ap (λ a. store_all a (i + 1) vs) (sym (append_assoc front (v ∷ []) rest))
    ∙ store_all_outside (front ++ v ∷ []) rest vs (i + 1)
        (omega (arith, length-append front (v ∷ []))) (omega arith))
