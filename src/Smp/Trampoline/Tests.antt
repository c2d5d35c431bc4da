-- ===== src/Smp/Trampoline/Tests.antt =====
-- The copies of Kernel/src/sys/smp.c with a page map at 16 MB.
use wheatley.Common.{◌%◌, arith}
use wheatley.Pci.Access.{Bytes}
use wheatley.Smp.Trampoline.{copy_trampoline, Copied, copy_trampoline-Copied}

abbrev image : Bytes
image x = x % 251

copy_trampoline-Copied_example :
    Copied image (copy_trampoline image 0x200000 0x210000 0x1000000) 0x200000 0x210000 0x1000000
copy_trampoline-Copied_example =
    copy_trampoline-Copied image 0x200000 0x210000 0x1000000 (omega arith) (omega arith)
