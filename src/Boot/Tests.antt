-- ===== src/Boot/Tests.antt =====
-- A run of Kernel/src/sys/cpuid.c.
use wheatley.Common.{◌≡◌, refl, [], ◌∷◌}
use wheatley.Boot.{get_cpuid_string, bytes_of}

-- "GenuineIntel"
oem_id :
    get_cpuid_string 0x756e6547 0x6c65746e 0x49656e69
    ≡ 0x47 ∷ 0x65 ∷ 0x6e ∷ 0x75 ∷ 0x69 ∷ 0x6e ∷ 0x65 ∷ 0x49 ∷ 0x6e ∷ 0x74 ∷ 0x65 ∷ 0x6c ∷ []
unfolding get_cpuid_string bytes_of
oem_id = refl
