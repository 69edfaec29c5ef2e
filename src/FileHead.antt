-- ===== src/FileHead.antt =====
-- c/filehead.pb-c.h and c/filehead.pb-c.c: the message of c/filehead.proto as protoc-c generated
-- it, its tables, and its functions, which ask protobuf-c after a check of the descriptor. The tables
-- leave out what is the same for every message: the magic number, NULL pointers and reserved fields;
-- the structure's size and the offsets in it are its type and its members.
pub mod Tables
pub mod RoundTrip
use net_file_transfer.Base.{
  ℕ, zero, suc, Bool, true, false, List, [], ◌∷◌, ◌++◌, Option, none, some, Outcome, ok, fault,
  aborted, ◌>>=◌, ◌>>◌, assert, require, length, drop, leb,
}
use net_file_transfer.ProtobufC.{
  required, string, fixed32, bytes, BinaryData, Value, text_value, word_value, binary_value,
  FieldDescriptor, IntRange, MessageDescriptor, ProtobufC,
}

-- Where `base.descriptor` leads: nowhere, to `file_info__descriptor`, or to another descriptor.
pub data DescriptorRef : Type 0 where
  null to_file_info : DescriptorRef
  to_another : ℕ → DescriptorRef

-- `struct _FileInfo`; of `base` only `descriptor` is used here.
pub record FileInfo : Type 0 where
  pub descriptor : DescriptorRef
  pub name : Option (List ℕ)
  pub size : ℕ
  pub info : BinaryData

-- The members that `offsetof` is asked for, and their access.
pub data Member : Type 0 where
  name_member size_member info_member : Member

unfoldable pub at : FileInfo → Member → Value
at m name_member = text_value m.name
at m size_member = word_value m.size
at m info_member = binary_value m.info

-- An assignment through an offset: what is stored has to be of the member's type.
unfoldable pub set : FileInfo → Member → Value → Outcome FileInfo
set m name_member (text_value t) = ok (record m { name = t })
set m name_member (word_value n) = fault
set m name_member (binary_value d) = fault
set m size_member (text_value t) = fault
set m size_member (word_value n) = ok (record m { size = n })
set m size_member (binary_value d) = fault
set m info_member (text_value t) = fault
set m info_member (word_value n) = fault
set m info_member (binary_value d) = ok (record m { info = d })

unfoldable pub set_all : FileInfo → List (Member × Value) → Outcome FileInfo
unfolding set
set_all m [] = ok m
set_all m ((member, v) ∷ vs) = do m' ← set m member v; set_all m' vs

-- `FILE_INFO__INIT`.
unfoldable pub init_value : FileInfo
init_value = record {
  descriptor = to_file_info;
  name = none;
  size = 0;
  info = record { len = 0; data_bytes = none };
}

-- `file_info__init(message)`.
unfoldable pub file_info_init : FileInfo → FileInfo
unfolding init_value
file_info_init message = init_value

-- `file_info__field_descriptors`.
unfoldable pub field_descriptors : List (FieldDescriptor Member)
field_descriptors =
    record {
      name = b'n' ∷ b'a' ∷ b'm' ∷ b'e' ∷ [];
      id = 1;
      label = required;
      type = string;
      quantifier_offset = 0;
      offset = name_member;
      flags = 0;
    }
    ∷ record {
      name = b's' ∷ b'i' ∷ b'z' ∷ b'e' ∷ [];
      id = 2;
      label = required;
      type = fixed32;
      quantifier_offset = 0;
      offset = size_member;
      flags = 0;
    }
    ∷ record {
      name = b'i' ∷ b'n' ∷ b'f' ∷ b'o' ∷ [];
      id = 3;
      label = required;
      type = bytes;
      quantifier_offset = 0;
      offset = info_member;
      flags = 0;
    }
    ∷ []

-- `file_info__field_indices_by_name`.
unfoldable pub field_indices_by_name : List ℕ
field_indices_by_name = 2 ∷ 0 ∷ 1 ∷ []

-- `file_info__number_ranges`.
unfoldable pub number_ranges : List IntRange
number_ranges =
    record { start_value = 1; orig_index = 0 } ∷ record { start_value = 0; orig_index = 3 } ∷ []

abbrev file_info_name : List ℕ
file_info_name = b'F' ∷ b'i' ∷ b'l' ∷ b'e' ∷ b'I' ∷ b'n' ∷ b'f' ∷ b'o' ∷ []

-- `file_info__descriptor`.
unfoldable pub file_info_descriptor : MessageDescriptor Member (FileInfo → FileInfo)
unfolding file_info_init field_descriptors field_indices_by_name number_ranges
file_info_descriptor = record {
  name = file_info_name;
  short_name = file_info_name;
  c_name = file_info_name;
  package_name = [];
  n_fields = 3;
  fields = field_descriptors;
  fields_sorted_by_name = field_indices_by_name;
  n_field_ranges = 1;
  field_ranges = number_ranges;
  message_init = file_info_init;
}

-- `message->base.descriptor == &file_info__descriptor`.
abbrev pub is_file_info : DescriptorRef → Bool
is_file_info null = false
is_file_info to_file_info = true
is_file_info (to_another n) = false

module _ (pb : ProtobufC) where
  -- `file_info__get_packed_size(message)`.
  unfoldable pub file_info_get_packed_size : FileInfo → Outcome ℕ
  unfolding file_info_descriptor at
  file_info_get_packed_size message = do
    assert (is_file_info message.descriptor)
    ok (pb.get_packed_size file_info_descriptor (at message))

  -- `file_info__pack(message, out)`: the count, and `out` after the call, which the bytes have to
  -- fit in.
  unfoldable pub file_info_pack : FileInfo → List ℕ → Outcome (ℕ × List ℕ)
  unfolding file_info_descriptor at
  file_info_pack message out = do
    assert (is_file_info message.descriptor)
    let packed = pb.pack file_info_descriptor (at message)
    require (leb (length packed) (length out))
    ok (length packed, packed ++ drop (length packed) out)

  -- `file_info__pack_to_buffer(message, buffer)`, for a buffer that keeps what is appended to it.
  unfoldable pub file_info_pack_to_buffer : FileInfo → List ℕ → Outcome (ℕ × List ℕ)
  unfolding file_info_descriptor at
  file_info_pack_to_buffer message buffer = do
    assert (is_file_info message.descriptor)
    let packed = pb.pack file_info_descriptor (at message)
    ok (length packed, buffer ++ packed)

  -- The message that protobuf-c makes in the memory it is given: it is initialised as the
  -- descriptor says, and set.
  unfoldable pub unpacked : FileInfo → Option (List (Member × Value)) → Outcome (Option FileInfo)
  unfolding set_all file_info_descriptor
  unpacked memory none = ok none
  unpacked memory (some vs) = do
    m ← set_all (file_info_descriptor.message_init memory) vs
    ok (some m)

  -- `file_info__unpack(allocator, len, data)`, for the `len` bytes at `data`; `memory` is what stands
  -- in the memory that the allocator gives.
  unfoldable pub file_info_unpack :
      FileInfo → pb.Allocator → List ℕ → Outcome (Option FileInfo × pb.Allocator)
  unfolding unpacked
  file_info_unpack memory allocator message_bytes = do
    let (vs, allocator') = pb.unpack file_info_descriptor allocator message_bytes
    message ← unpacked memory vs
    ok (message, allocator')

  -- `file_info__free_unpacked(message, allocator)`.
  unfoldable pub file_info_free_unpacked : FileInfo → pb.Allocator → Outcome pb.Allocator
  unfolding file_info_descriptor
  file_info_free_unpacked message allocator = do
    assert (is_file_info message.descriptor)
    ok (pb.free_unpacked file_info_descriptor (at message) allocator)
