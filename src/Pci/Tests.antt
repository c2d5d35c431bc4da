-- ===== src/Pci/Tests.antt =====
-- The mapping of Kernel/src/sys/pci.c for one register, into an empty page map.
use wheatley.Common.{◌%◌, ◌≡◌, refl, some, [], ◌∷◌, arith}
use wheatley.Paging.Bump.{bump}
use wheatley.Paging.Empty.{empty, empty-Stands}
use wheatley.Pci.{McfgAddr, PciDevicePath, find_segment}
use wheatley.Pci.Address.{IsRegister}
use wheatley.Pci.Mapping.{get_and_map, Reach, get_and_map-Reach}

abbrev segment_0 : McfgAddr
segment_0 = record { base_addr = 0xb0000000; segment = 0; bus_start = 0 }

abbrev disk : PciDevicePath
disk = record { seg = 0; bus = 0; slot = 31; fun = 2 }

disk-IsRegister : IsRegister segment_0 disk 0x10
disk-IsRegister = record {
  first = omega arith;
  bus = omega arith;
  slot = omega arith;
  fun = omega arith;
  offset_small = omega arith;
  fits = omega arith;
}

found_0 : find_segment (segment_0 ∷ []) 0 ≡ some segment_0
unfolding find_segment
found_0 = refl

-- The register at 0x10 gets an entry with the bit 0x10 set, which turns the cache off.
get_and_map-Reach_example :
    (0xb00fa010 % 4096 ≡ 0x10)
    × Reach bump 0x100000
        (segment_0 ∷ [])
        empty
        0xb00fa010
        (get_and_map bump 0x100000 (segment_0 ∷ []) empty disk 0x10)
get_and_map-Reach_example =
    get_and_map-Reach bump 0x100000 (segment_0 ∷ []) segment_0 disk 0x10 found_0 disk-IsRegister
      refl 0 empty (empty-Stands 3 (omega arith)).role (empty-Stands 3 (omega arith)).tree
      (empty-Stands 3 (omega arith)).ready
