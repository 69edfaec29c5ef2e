-- ===== src/FileHead/RoundTrip.antt =====
-- What the functions of a packed message come to.
use net_file_transfer.Base.{
  ℕ, ◌^◌, ◌<◌, ◌≤◌, ◌≡◌, refl, sym, ◌∙◌, List, ◌++◌, some, true, ok, ok-injective, length, drop,
  le→leb, arith, subst,
}
use net_file_transfer.Memory.Text.{IsText}
use net_file_transfer.ProtobufC.{
  ProtobufC, IsProtobufC, HasType, string, text_value, Fits, values_of,
}
use net_file_transfer.FileHead.{
  to_file_info, FileInfo, at, set, set_all, file_info_init, file_info_descriptor,
  file_info_get_packed_size, file_info_pack, file_info_pack_to_buffer, unpacked, file_info_unpack,
  file_info_free_unpacked,
}
use net_file_transfer.FileHead.Tables.{file_info_descriptor-IsConsistent}

-- A message with all its fields: initialised, and set to values of their types.
pub record IsFilled (m : FileInfo) : Type 0 where
  pub initialised : m.descriptor ≡ to_file_info
  pub name : (t : List ℕ) × (m.name ≡ some t) × IsText t
  pub size : m.size < 2 ^ 32
  pub info : (t : List ℕ) × (m.info.data_bytes ≡ some t) × (length t ≡ m.info.len)

module _ (m : FileInfo) (h : IsFilled m) where
  IsFilled-Fits : Fits (at m) file_info_descriptor.fields
  unfolding file_info_descriptor at
  IsFilled-Fits =
      let (t, here, is_text) = h.name in
      let typed : HasType string (text_value m.name) =
        subst (λ o. HasType string (text_value o)) (sym here) is_text in
      (refl, typed, (refl, h.size, (refl, h.info, tt)))

  set_all-values_of :
      (memory : FileInfo)
      → set_all
          (file_info_descriptor.message_init memory)
          (values_of (at m) file_info_descriptor.fields)
        ≡ ok m
  unfolding file_info_descriptor at set_all file_info_init set
  set_all-values_of memory = λ i.
      ok (record { descriptor = sym h.initialised i; name = m.name; size = m.size; info = m.info })

module _ {pb : ProtobufC} (laws : IsProtobufC pb) (m : FileInfo) (h : IsFilled m) where
  -- The bytes of the message, and their count.
  abbrev packed : List ℕ
  packed = pb.pack file_info_descriptor (at m)

  packed-length : length packed ≡ pb.get_packed_size file_info_descriptor (at m)
  packed-length =
      laws.pack_size file_info_descriptor (at m) file_info_descriptor-IsConsistent
        (IsFilled-Fits m h)

  file_info_unpack-packed :
      (memory : FileInfo) (allocator : pb.Allocator)
      → pb.allocates allocator ≡ true
      → file_info_unpack pb memory allocator packed
        ≡ ok (some m, (pb.unpack file_info_descriptor allocator packed).1)
  unfolding file_info_unpack unpacked
  file_info_unpack-packed memory allocator gives = rw (
    laws.unpack_pack file_info_descriptor (at m) allocator file_info_descriptor-IsConsistent
        (IsFilled-Fits m h) gives,
    set_all-values_of m h memory,
  )

  size_told : file_info_get_packed_size pb m ≡ ok (pb.get_packed_size file_info_descriptor (at m))
  unfolding file_info_get_packed_size
  size_told = rw h.initialised refl

  packed_size : {n : ℕ} → file_info_get_packed_size pb m ≡ ok n → length packed ≡ n
  packed_size told = packed-length ∙ ok-injective (sym size_told ∙ told)

  -- Over a protobuf-c that does what its documentation says for descriptors whose tables agree,
  -- and for an initialised message with a name without a NUL, a size below 2^32 and binary data of
  -- its declared length: if the packed size is n, `out` has n bytes or more and the allocator gives memory, then `pack` stores
  -- n bytes at the start of `out` and leaves the others, `pack_to_buffer` appends the same bytes,
  -- `unpack` of them gives the message back, whatever stood in the memory it takes, and
  -- `free_unpacked` then leaves the allocator as it was before.
  pub file_info_pack-file_info_unpack :
      (n : ℕ) (out buffer : List ℕ) (memory : FileInfo) (allocator : pb.Allocator)
      → file_info_get_packed_size pb m ≡ ok n
      → n ≤ length out
      → pb.allocates allocator ≡ true
      → (t : List ℕ) × (allocator' : pb.Allocator) × (length t ≡ n)
        × (file_info_pack pb m out ≡ ok (n, t ++ drop n out))
        × (file_info_pack_to_buffer pb m buffer ≡ ok (n, buffer ++ t))
        × (file_info_unpack pb memory allocator t ≡ ok (some m, allocator'))
        × (file_info_free_unpacked pb m allocator' ≡ ok allocator)
  unfolding file_info_pack file_info_pack_to_buffer file_info_free_unpacked
  file_info_pack-file_info_unpack n out buffer memory allocator told room gives =
      let size = packed_size told in
      let freed : pb.free_unpacked file_info_descriptor (at m)
            (pb.unpack file_info_descriptor allocator packed).1
          ≡ allocator =
        laws.free_unpack file_info_descriptor (at m) allocator packed (
          laws.unpack_pack file_info_descriptor (at m) allocator file_info_descriptor-IsConsistent
            (IsFilled-Fits m h) gives) in
      (
        packed,
        (pb.unpack file_info_descriptor allocator packed).1,
        size,
        rw (h.initialised, le→leb (length packed) (length out) (omega (arith, size)), size) refl,
        rw (h.initialised, size) refl,
        file_info_unpack-packed memory allocator gives,
        rw (h.initialised, freed) refl,
      )
