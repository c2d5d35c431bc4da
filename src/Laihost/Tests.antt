-- ===== src/Laihost/Tests.antt =====
-- The configuration space through Kernel/src/fw/laihost.c, with one segment.
use wheatley.Common.{◌≡◌, refl, inl, inr, arith, some, [], ◌∷◌}
use wheatley.Pci.{McfgAddr, find_segment}
use wheatley.Laihost.Config.{word, Register, read, write, Lies, read-write}

abbrev segment_0 : McfgAddr
segment_0 = record { base_addr = 0xb0000000; segment = 0; bus_start = 0 }

found_0 : find_segment (segment_0 ∷ []) 0 ≡ some segment_0
unfolding find_segment
found_0 = refl

-- The command register of a disk, and the register behind it.
abbrev command : Register
command = record { bus = 0; slot = 31; fun = 2; offset = 4; width = word }

abbrev status : Register
status = record { bus = 0; slot = 31; fun = 2; offset = 6; width = word }

command-Lies : Lies (segment_0 ∷ []) 0 segment_0 command
command-Lies = record {
  register = record {
    first = omega arith;
    bus = omega arith;
    slot = omega arith;
    fun = omega arith;
    offset_small = omega arith;
    fits = omega arith;
  };
  inside = omega arith;
}

status-Lies : Lies (segment_0 ∷ []) 0 segment_0 status
status-Lies = record {
  register = record {
    first = omega arith;
    bus = omega arith;
    slot = omega arith;
    fun = omega arith;
    offset_small = omega arith;
    fits = omega arith;
  };
  inside = omega arith;
}

read-write_example :
    (read (segment_0 ∷ []) 0 (write (segment_0 ∷ []) 0 (λ _. 0xff) command 0x10006) command ≡ 6)
    × (read (segment_0 ∷ []) 0 (write (segment_0 ∷ []) 0 (λ _. 0xff) command 0x10006) status
        ≡ read (segment_0 ∷ []) 0 (λ _. 0xff) status)
read-write_example =
    read-write (segment_0 ∷ []) 0 segment_0 found_0 (λ _. 0xff) command status 0x10006 command-Lies
      status-Lies (inr (inl (omega arith)))
