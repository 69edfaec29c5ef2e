-- ===== src/Examples/Packed.antt =====
-- c/filehead.pb-c.c over a plain encoding: a message for the name `out`.
use net_file_transfer.Base.{[], ◌∷◌, some, ok, ◌≡◌, refl, arith}
use net_file_transfer.ProtobufC.Toy.{toy}
use net_file_transfer.FileHead.{
  to_file_info, FileInfo, file_info_descriptor, field_descriptors, at, file_info_get_packed_size,
}
use net_file_transfer.FileHead.RoundTrip.{IsFilled}
use net_file_transfer.Examples.{out_name}

abbrev message : FileInfo
message = record {
  descriptor = to_file_info;
  name = some out_name;
  size = 3;
  info = record { len = 2; data_bytes = some (1 ∷ 2 ∷ []) };
}

message-IsFilled : IsFilled message
message-IsFilled = record {
  initialised = refl;
  name = (out_name, refl, (omega arith, (omega arith, (omega arith, tt))));
  size = omega arith;
  info = (1 ∷ 2 ∷ [], refl, refl);
}

nine_bytes : file_info_get_packed_size toy message ≡ ok 9
unfolding file_info_get_packed_size file_info_descriptor field_descriptors at
nine_bytes = refl
