-- ===== src/ProtobufC.antt =====
-- protobuf-c, which the repository does not hold: its descriptors, as far as generated code fills
-- them in, its calls as operations over unknown types, and what the documentation says of them.
-- `M` stands for the members of the message's structure: `offsetof` is the member itself.
pub mod Toy
use net_file_transfer.Base.{
  ℕ, zero, suc, ◌+◌, ◌-◌, ◌^◌, ◌<◌, ◌≡◌, Bool, true, false, ◌&&◌, ◌||◌, List, [], ◌∷◌, ◌++◌, map,
  Option, none, some, length, ltb, ◌==◌,
}
use net_file_transfer.Memory.Text.{IsText}

pub data Label : Type 0 where
  required optional repeated : Label

-- The types of the fields that the repository uses.
pub data FieldType : Type 0 where
  string fixed32 bytes : FieldType

-- `ProtobufCBinaryData`, with what `data` leads to.
pub record BinaryData : Type 0 where
  pub len : ℕ
  pub data_bytes : Option (List ℕ)

-- What a member holds: a `char *` with the text that it leads to, a `uint32_t`, or binary data.
pub data Value : Type 0 where
  text_value : Option (List ℕ) → Value
  word_value : ℕ → Value
  binary_value : BinaryData → Value

-- `ProtobufCFieldDescriptor`.
pub record FieldDescriptor (M : Type 0) : Type 0 where
  pub name : List ℕ
  pub id : ℕ
  pub label : Label
  pub type : FieldType
  pub quantifier_offset : ℕ
  pub offset : M
  pub flags : ℕ

-- `ProtobufCIntRange`.
pub record IntRange : Type 0 where
  pub start_value : ℕ
  pub orig_index : ℕ

-- `ProtobufCMessageDescriptor`, for messages of type `T`; `message_init` is what the function of
-- that name makes.
pub record MessageDescriptor (M T : Type 0) : Type 0 where
  pub name : List ℕ
  pub short_name : List ℕ
  pub c_name : List ℕ
  pub package_name : List ℕ
  pub n_fields : ℕ
  pub fields : List (FieldDescriptor M)
  pub fields_sorted_by_name : List ℕ
  pub n_field_ranges : ℕ
  pub field_ranges : List IntRange
  pub message_init : T

-- The values from `start` on, `n` of them, and what ranges stand for: each goes up to where the
-- next one's index begins, and the last only says where the indices end.
abbrev pub upwards : ℕ → ℕ → List ℕ
upwards start zero = []
upwards start (suc n) = start ∷ upwards (suc start) n

abbrev pub expand : List IntRange → List ℕ
expand [] = []
expand (r ∷ []) = []
expand (r ∷ r' ∷ rs) = upwards r.start_value (r'.orig_index - r.orig_index) ++ expand (r' ∷ rs)

-- `strcmp(a, b) < 0`.
abbrev pub strcmp_less : List ℕ → List ℕ → Bool
strcmp_less a [] = false
strcmp_less [] (y ∷ b) = true
strcmp_less (x ∷ a) (y ∷ b) = ltb x y || (x == y && strcmp_less a b)

-- Each name there and before the next.
abbrev pub ascending : List (Option (List ℕ)) → Bool
ascending [] = true
ascending (none ∷ names) = false
ascending (some a ∷ []) = true
ascending (some a ∷ none ∷ names) = false
ascending (some a ∷ some b ∷ names) = strcmp_less a b && ascending (some b ∷ names)

abbrev pub name_at : {M : Type 0} → List (FieldDescriptor M) → ℕ → Option (List ℕ)
name_at [] n = none
name_at (f ∷ fs) zero = some f.name
name_at (f ∷ fs) (suc n) = name_at fs n

-- The tables of a descriptor agree: the counts are those of the lists, the ranges list the fields'
-- numbers in the fields' order, and the indices sort all the fields by name.
pub record IsConsistent {M T : Type 0} (d : MessageDescriptor M T) : Type 0 where
  pub counted : length d.fields ≡ d.n_fields
  pub indexed : length d.fields_sorted_by_name ≡ d.n_fields
  pub ranges_counted : length d.field_ranges ≡ suc d.n_field_ranges
  pub numbered : expand d.field_ranges ≡ map (λ (f : FieldDescriptor M). f.id) d.fields
  pub sorted : ascending (map (name_at d.fields) d.fields_sorted_by_name) ≡ true

-- A value that a required field of the type may hold.
abbrev pub HasType : FieldType → Value → Type 0
HasType string (text_value none) = ⊥
HasType string (text_value (some t)) = IsText t
HasType string (word_value n) = ⊥
HasType string (binary_value d) = ⊥
HasType fixed32 (text_value t) = ⊥
HasType fixed32 (word_value n) = n < 2 ^ 32
HasType fixed32 (binary_value d) = ⊥
HasType bytes (text_value t) = ⊥
HasType bytes (word_value n) = ⊥
HasType bytes (binary_value d) = (t : List ℕ) × (d.data_bytes ≡ some t) × (length t ≡ d.len)

abbrev pub Fits : {M : Type 0} → (M → Value) → List (FieldDescriptor M) → Type 0
Fits at [] = Unit {0}
Fits at (f ∷ fs) = (f.label ≡ required) × HasType f.type (at f.offset) × Fits at fs

-- What the message holds in its fields.
abbrev pub values_of : {M : Type 0} → (M → Value) → List (FieldDescriptor M) → List (M × Value)
values_of at [] = []
values_of at (f ∷ fs) = (f.offset, at f.offset) ∷ values_of at fs

pub record ProtobufC : Type 1 where
  pub Allocator : Type 0
  -- whether it gives the memory that it is asked for
  pub allocates : Allocator → Bool
  pub get_packed_size : {M T : Type 0} → MessageDescriptor M T → (M → Value) → ℕ
  -- the bytes that are stored
  pub pack : {M T : Type 0} → MessageDescriptor M T → (M → Value) → List ℕ
  -- what the members are set to, if the bytes are those of a message
  pub unpack :
      {M T : Type 0}
      → MessageDescriptor M T
      → Allocator
      → List ℕ
      → Option (List (M × Value)) × Allocator
  -- the message is given by its members
  pub free_unpacked : {M T : Type 0} → MessageDescriptor M T → (M → Value) → Allocator → Allocator

-- The documented behaviour, for descriptors whose tables agree.
pub record IsProtobufC (pb : ProtobufC) : Type 1 where
  pub pack_size :
      {M T : Type 0} (d : MessageDescriptor M T) (at : M → Value)
      → IsConsistent d
      → Fits at d.fields
      → length (pb.pack d at) ≡ pb.get_packed_size d at
  pub unpack_pack :
      {M T : Type 0} (d : MessageDescriptor M T) (at : M → Value) (al : pb.Allocator)
      → IsConsistent d
      → Fits at d.fields
      → pb.allocates al ≡ true
      → (pb.unpack d al (pb.pack d at)).0 ≡ some (values_of at d.fields)
  -- what `unpack` allocated for a message is freed again
  pub free_unpack :
      {M T : Type 0} (d : MessageDescriptor M T) (at : M → Value) (al : pb.Allocator)
      (bytes : List ℕ)
      → (pb.unpack d al bytes).0 ≡ some (values_of at d.fields)
      → pb.free_unpacked d at (pb.unpack d al bytes).1 ≡ al
