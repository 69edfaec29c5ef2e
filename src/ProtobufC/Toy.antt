-- ===== src/ProtobufC/Toy.antt =====
-- A plain encoding meets what the generated code assumes of protobuf-c: every field is the number
-- of its bytes, and the bytes. An allocator is the number of its blocks.
use net_file_transfer.Base.{
  ℕ, ◌+◌, ◌-◌, ◌≡◌, refl, sym, ap, ◌∙◌, List, [], ◌∷◌, ◌++◌, Option, none, some, true, length, take,
  drop, take-append, drop-append, arith,
}
use net_file_transfer.ProtobufC.{
  FieldType, string, fixed32, bytes, Value, text_value, word_value, binary_value, FieldDescriptor,
  ProtobufC, IsProtobufC, HasType, Fits, values_of,
}

abbrev data_of : Option (List ℕ) → List ℕ
data_of none = []
data_of (some t) = t

abbrev bytes_of : Value → List ℕ
bytes_of (text_value t) = data_of t
bytes_of (word_value n) = n ∷ []
bytes_of (binary_value d) = data_of d.data_bytes

abbrev value_of : FieldType → List ℕ → Value
value_of string t = text_value (some t)
value_of fixed32 [] = word_value 0
value_of fixed32 (n ∷ t) = word_value n
value_of bytes t = binary_value (record { len = length t; data_bytes = some t })

abbrev encode_fields : {M : Type 0} → (M → Value) → List (FieldDescriptor M) → List ℕ
encode_fields at [] = []
encode_fields at (f ∷ fs) =
    length (bytes_of (at f.offset)) ∷ bytes_of (at f.offset) ++ encode_fields at fs

abbrev set_also : {M : Type 0} → M × Value → Option (List (M × Value)) → Option (List (M × Value))
set_also v none = none
set_also v (some vs) = some (v ∷ vs)

abbrev decode_fields : {M : Type 0} → List (FieldDescriptor M) → List ℕ → Option (List (M × Value))
decode_fields [] t = some []
decode_fields (f ∷ fs) [] = none
decode_fields (f ∷ fs) (n ∷ t) =
    set_also (f.offset, value_of f.type (take n t)) (decode_fields fs (drop n t))

abbrev blocks : {A : Type 0} → Option A → ℕ → ℕ
blocks none al = al
blocks (some a) al = al + 1

abbrev pub toy : ProtobufC
toy = record {
  Allocator = ℕ;
  allocates = λ al. true;
  get_packed_size = λ {M} {T} d at. length (encode_fields at d.fields);
  pack = λ {M} {T} d at. encode_fields at d.fields;
  unpack = λ {M} {T} d al t. (decode_fields d.fields t, blocks (decode_fields d.fields t) al);
  free_unpacked = λ {M} {T} d at al. al - 1;
}

value_of-bytes_of : (ty : FieldType) (v : Value) → HasType ty v → value_of ty (bytes_of v) ≡ v
value_of-bytes_of string (text_value none) h = absurd h
value_of-bytes_of string (text_value (some t)) h = refl
value_of-bytes_of string (word_value n) h = absurd h
value_of-bytes_of string (binary_value d) h = absurd h
value_of-bytes_of fixed32 (text_value t) h = absurd h
value_of-bytes_of fixed32 (word_value n) h = refl
value_of-bytes_of fixed32 (binary_value d) h = absurd h
value_of-bytes_of bytes (text_value t) h = absurd h
value_of-bytes_of bytes (word_value n) h = absurd h
value_of-bytes_of bytes (binary_value d) (t, here, same) =
    ap (λ o. value_of bytes (data_of o)) here
    ∙ ap binary_value (λ i. record { len = same i; data_bytes = sym here i })

decode-encode :
    {M : Type 0} (at : M → Value) (fs : List (FieldDescriptor M))
    → Fits at fs
    → decode_fields fs (encode_fields at fs) ≡ some (values_of at fs)
decode-encode at [] h = refl
decode-encode at (f ∷ fs) (_, typed, h) =
    let t = bytes_of (at f.offset) in
    rw (
      take-append (length t) t (encode_fields at fs) refl,
      drop-append (length t) t (encode_fields at fs) refl,
      value_of-bytes_of f.type (at f.offset) typed,
      decode-encode at fs h,
    )

freed : {A : Type 0} (o : Option A) {a : A} (al : ℕ) → o ≡ some a → blocks o al - 1 ≡ al
freed none al e = cc
freed (some b) al e = omega arith

pub toy-IsProtobufC : IsProtobufC toy
toy-IsProtobufC = record {
  pack_size = λ {M} {T} d at c h. refl;
  unpack_pack = λ {M} {T} d at al c h gives. decode-encode at d.fields h;
  free_unpack = λ {M} {T} d at al t e. freed (decode_fields d.fields t) al e;
}
