-- ===== src/Loader/Segments/Tests.antt =====
-- The search for the RSDP of Bootloader/src/main.c.
use wheatley.Common.{◌+◌, ◌≡◌, refl, ltb}
use wheatley.Loader.Segments.{find_rsdp}

-- The last of two tables with the GUID is taken.
last_rsdp : find_rsdp (λ i. ltb 0 i) (λ i. 100 + i) 0 3 0 ≡ 102
unfolding find_rsdp
last_rsdp = refl
