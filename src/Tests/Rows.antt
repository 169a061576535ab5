-- ===== src/Tests/Rows.antt =====
-- The order of rows, and an address in the sections of a file.
use windows_rs.Base.{List, [], ◌∷◌, wrap, arith}
use windows_rs.Metadata.Loader.Sections.{
  ImageSectionHeader, file_offset, Located, file_offset-Located,
}

abbrev sections : List ImageSectionHeader
sections =
    record {
      physical_address_or_virtual_size = 0x400;
      virtual_address = 0x2000;
      pointer_to_raw_data = 0x200;
    }
    ∷ record {
      physical_address_or_virtual_size = 0x100;
      virtual_address = 0x4000;
      pointer_to_raw_data = 0x600;
    }
    ∷ []

file_offset-Located_example : Located (file_offset wrap sections 0x4010) 0x4010 sections
file_offset-Located_example =
    file_offset-Located wrap sections 0x4010
      ((omega arith, omega arith), ((omega arith, omega arith), tt))
