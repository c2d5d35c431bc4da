-- ===== src/Lib.antt =====
-- Wheatley: the kernel's memory management, tables and drivers, and its boot loader's page tables.
--
-- The boot loader (Bootloader) reads the kernel's file, maps it with its own page tables and hands
-- the memory map, the symbols and the frame buffer over. The kernel (Kernel) sets up its page
-- allocator, its page tables, descriptor tables and interrupt controllers, and prints on
-- terminals. Each part stands in a module of its own here, with its state as a record and a
-- function for each function of the source, under the source's name.
--
-- Mm.antt (Kernel/src/mm/mm.c, internal.c): the bitmap `_mm_pages`, the table `_mm_allocs`,
-- `_mm_find_page`, `_mm_find_alloc`, `kmalloc`, `kfree`, `krealloc`. A call's end is an `Outcome`:
-- a return, a panic, or spinning on a lock that the caller holds already. Mm/Init.antt
-- (Kernel/src/mm/init.c): `mm_init` and `_mm_add_alloc`. Mm/Pool.antt is what callers may rely on,
-- a pool of pages with live blocks, and Mm/Refine.antt the allocator against it. In memory the
-- table stands right behind the bitmap, and both among the pages; here they are fields. An
-- allocator is sound (`IsSound` in Mm/Calls.antt) when bitmap and table agree, the bitmap's last page
-- is taken and every live block ends before it: then no run passes the bitmap's end, and the table is
-- written as a table only. `krealloc` also writes to memory, apart from both where its theorem's
-- conditions on their addresses hold.
--
-- Paging.antt (Kernel/src/mm/vmm.c, Bootloader/src/paging.c): `get_next_level`, `vmm_map_page`,
-- `vmm_unmap_page`, `Paging_GetNextLevel`, `Paging_MapPage`, on memory by the 64-bit word. New
-- tables come from a `PageSource`, which Paging/Kernel.antt fills with `kmalloc`; the firmware's
-- `AllocatePages` is a parameter. Paging/Tree.antt has the processor's walk, against which mapping
-- is measured. Paging/Startup.antt: `vmm_init`, against a function from addresses to entries
-- (Paging/Startup/Entries.antt). The source of pages has to be ready for three pages for each
-- region of 2 MB that a loop comes to: 384 of them for the first 256 MB, of the 1024 entries of
-- the kernel's allocator. That source is ready for as many as there are pages in a run of free
-- ones, and never gives NULL then (`Gives`). Paging/Startup/Allocator.antt: `mm_init` and `vmm_init`, one after the
-- other. Paging/Startup/Devices.antt: what the drivers ask of both afterwards, the mapping of a
-- device's page (Paging/Identity.antt) or a block of memory.
--
-- Interrupts.antt (Kernel/src/sys/isr.c, idt.c, gdt.c): the gates that `isr_write` sets through
-- `idt_set_handler`, the dispatch of `isr_handle`, and the segments of `gdt_write`. The entry
-- points of isr.asm are a parameter. Interrupts/Delivery.antt has the processor's way through both
-- tables.
--
-- Spinlock.antt (Kernel/inc/sys/spinlock.h): the lock as a step relation on threads, with
-- sequentially consistent memory.
--
-- Panic.antt (Kernel/src/panic.c): `find_symbol`, `panic_backtrace`, `panic`, `nmi_vector`; what
-- is printed is a list of events. The assertion of `lapic_write` is a flag of its state. Panic/Registers.antt: the registers of an interrupt, and how
-- they are printed.
--
-- Madt.antt (Kernel/src/fw/madt.c): the walk of `madt_init` over the table's records, on memory by
-- the byte. The loop has no bound of its own and runs on fuel here: the table's length is enough
-- where no record has length 0.
--
-- Apic.antt (Kernel/src/sys/apic.c, Kernel/inc/sys/msr.h): the registers of the I/O APICs and
-- `ioapic_redirect_gsi`, the writes of `lapic_write`, `wrmsr`, `apic_send_ipi` and
-- `lapic_set_nmi`. Apic/Startup.antt: `lapic_init` and `apic_init`, as the list of what they
-- write.
--
-- Smp.antt (Kernel/src/sys/smp.c): what `smp_init` sends to the other processors; each wait for a
-- delivery has its own fuel, the reads in which the signal is delivered. Smp/Trampoline.antt:
-- what `smp_init` copies to low memory for them. Smp/Count.antt: `ap_startup` counting in
-- `aprunning`, as a step relation on processors; Smp/Startup.antt: what it tells the processor then.
--
-- Boot.antt (Kernel/src/main.c, deepMain.c, sched/sched.c, sys/cpuid.c): `kernel_main` over what
-- its parts do to a state of any type, with the handlers that it registers, and the scheduler.
-- Boot/Interrupted.antt: the interrupts of the started kernel, through `isr_handle` to `panic`.
--
-- Screen.antt (Kernel/src/drivers/fb/efifb.c, Kernel/src/drivers/tty/fbtty.c): the frame buffer
-- with its copy, and the terminal that draws glyphs on it and scrolls, over the interface
-- `FbDriver`. Screen/Startup.antt: `efifb_module_init` and `fbtty_module_init`. Serial.antt
-- (Kernel/src/drivers/tty/serialtty.c): the serial terminal; a wait has the reads of the line's
-- status as fuel.
--
-- Registry.antt (Kernel/src/drivers/tty/tty.c, Kernel/src/drivers/fb/fb.c): the arrays of drivers
-- and `_putchar`.
--
-- Acpi.antt (Kernel/src/fw/acpi.c): `acpi_checksum` and `acpi_find_table`, over the fields of the
-- firmware's tables. Pci.antt (Kernel/src/sys/pci.c): `pci_get_mcfg_addr`, in Pci/Mapping.antt
-- its call of `vmm_map_page`, and in Pci/Access.antt the reads and writes. Laihost.antt
-- (Kernel/src/fw/laihost.c): what the LAI library is offered, on top of both, of Mm and of Timer.
-- Acpi/Startup.antt: `acpi_init`, `pci_init` and `hpet_init`, each with how it ends and the pages
-- that it maps; Acpi/Startup/Mapping.antt and Madt/Mapping.antt run these calls of `vmm_map_page`
-- on the kernel's page map, by Paging/Identity.antt.
--
-- Timer.antt (Kernel/src/drivers/timer): `hpet_sleep` on a counter that is a function of how often
-- it has been read, with the reads as fuel, and the values for the local APIC's timer.
-- Timer/Registers.antt: the registers of the HPET that `hpet_init` reads and sets.
--
-- Loader.antt (Bootloader/src/main.c, elfloader.c): the memory map, sections and symbols that the
-- boot loader hands over. Loader/Segments.antt: the loop over the program headers, which loads and
-- maps the segments with Paging's `Paging_MapPage`, the stack and the search for the RSDP.
-- Loader/Main.antt: `efi_main` from end to end. The firmware's answers are a parameter of both.
-- Loader/Main/Agreement.antt has the kernel's set-up of its memory on what is handed over, against
-- the boot loader's own tables.
--
-- Compare.antt (Bootloader/src/main.c, helpers.c): `my_memcmp`, `guidMatches` and `memcmp`.
-- Logo.antt (Bootloader/src/bmp3.c): `bmp3_display`, with what it asks the firmware to draw.
-- Text.antt (Kernel/src/string.c): `strlen`, with more fuel than the string has characters, and
-- `strcpy`, with the `memcpy` of Kernel/src/string.asm.
--
-- Ports.antt (Kernel/src/sys/io.c): the reads and writes of the processor's ports.
--
-- Numbers are natural numbers, with the wrap-around of the source's type written out where it can
-- occur. Other loops count the rounds left, so none needs fuel.
--
-- Not modelled: printf.c, a copy of a third-party library; inline assembly (the instructions for
-- ports, model-specific registers, table loads and halting) and the .asm files but for `memcpy`, the
-- trampoline among them; the name of the firmware's maker, which is only printed; of the boot loader the messages.
pub mod Common
pub mod Mm
pub mod Paging
pub mod Interrupts
pub mod Laihost
pub mod Spinlock
pub mod Panic
pub mod Madt
pub mod Screen
pub mod Registry
pub mod Apic
pub mod Acpi
pub mod Pci
pub mod Ports
pub mod Smp
pub mod Boot
pub mod Text
pub mod Serial
pub mod Timer
pub mod Loader
pub mod Compare
pub mod Logo
