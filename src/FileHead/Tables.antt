-- ===== src/FileHead/Tables.antt =====
-- The tables of `file_info__descriptor`.
use net_file_transfer.Base.{refl}
use net_file_transfer.ProtobufC.{IsConsistent}
use net_file_transfer.FileHead.{file_info_descriptor}

pub file_info_descriptor-IsConsistent : IsConsistent file_info_descriptor
unfolding file_info_descriptor
file_info_descriptor-IsConsistent = record {
  counted = refl;
  indexed = refl;
  ranges_counted = refl;
  numbered = refl;
  sorted = refl;
}
