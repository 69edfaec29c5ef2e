-- ===== src/OpenSsl/Toy.antt =====
-- A digest that meets what the program assumes: the message's length modulo 256, fifteen zeros.
use net_file_transfer.Base.{
  ℕ, ◌%◌, ◌≡◌, refl, ap, ◌∙◌, sym, List, [], ◌∷◌, ◌++◌, foldl, flatten, length, replicate, arith,
  append_assoc, append-nil,
}
use net_file_transfer.OpenSsl.{Md5, IsMd5}

abbrev pub toy : Md5
toy = record {
  Md5Ctx = List ℕ;
  md5_init = [];
  md5_update = λ c d. c ++ d;
  md5_final = λ c. (length c % 256) ∷ replicate 15 0;
}

folded :
    (c : List ℕ) (chunks : List (List ℕ)) → foldl (λ c d. c ++ d) c chunks ≡ c ++ flatten chunks
unfolding flatten
folded c [] = sym (append-nil c)
folded c (d ∷ ds) = folded (c ++ d) ds ∙ append_assoc c d (flatten ds)

pub toy-IsMd5 : IsMd5 toy
toy-IsMd5 = record {
  final_length = λ c. refl;
  final_bytes = λ c. omega arith;
  chunked = λ chunks. ap (λ c. (length c % 256) ∷ replicate 15 0) (folded [] chunks);
}
