-- ===== src/Lib.antt =====
-- PiVOS, a small ARMv8 kernel in C: a model of its core and what holds of it.
--
-- The kernel boots into `kernel_main`, sets up its memory, its devices and its system calls, and runs
-- user programs as a stack of processes. Paths below are from the repository's root.
--
-- * `Allocator` is pivos/src/memory/allocator.c, the bitmap of physical pages: the functions without
--   the prefix `memory_allocator_`, each one change of the record of the file's static variables.
-- * `Mmu` is pivos/src/memory/mmu.c with include/kernel/memory/mmu/reg.h: `Reg` the bit-field unions,
--   `Tables` the operations on one entry, `Walk` the walks and the split of a block, `Translate`
--   `memory_mmu_va_to_pa`, `Insert` `memory_mmu_insert` and `Destroy` `memory_mmu_destroy_table`;
--   `Walk/Builds`, `Insert/Pages`, `Insert/Mapped` and `Insert/Translated` follow an insertion to the
--   translation after it, and
--   `Destroy/Release` is a recursive description of what the loop of a destruction releases.
--   Table memory is a function from addresses to words; the callbacks that `memory_mmu_init` stores
--   are a parameter.
-- * `Buffer` is pivos/include/kernel/buffer: the byte ring of the UART driver and the stack of cells
--   that holds the processes.
-- * `Register` is what the unions of bit fields and the packed structures of the register headers have
--   in common: the list of their members with their widths, and access to a field.
-- * `Uart` is pivos/src/dev/uart.c; the device behind the registers is a parameter, each access a step
--   of its state. `Uart/Reg` is pivos/include/kernel/dev/uart/reg.h and `Uart/Init` `dev_uart_init`.
-- * `Timer` is pivos/src/dev/generic_timer.c with its header of registers.
-- * `Interrupt` is pivos/src/int.c, the table of dispatch functions.
-- * `Gic` is pivos/src/dev/gicv2.c: the setup of interrupts in the distributor, in `Cpu` the dispatch
--   of an interrupt and `dev_gicv2_init`, in `Reg` pivos/include/kernel/dev/gicv2/reg.h.
-- * `Dev` is pivos/src/dev.c and `Call` pivos/src/call.c, the tables through which devices and system
--   calls are reached; `Status` is pivos/include/kernel/log.h.
-- * `Bytes` is the loops over bytes of pivos/include/kernel/utils.h and pivos/src/libc.c, `Assert`
--   pivos/src/assert.c.
-- * `Word` holds the machine words of C, `Prelude` the names that all modules share.
-- * `Memory` is pivos/src/memory.c, made of `Allocator` and `Mmu`: `Mapped`, `Released` and `Destroyed`
--   follow a context from its creation to its end, on the pages that `Allocator/Sequence` counts, and
--   `Blocks` and `Kernel` the map of the kernel, whose first tables boot/mmu.S leaves; `Proc` is pivos/src/proc.c over the
--   interface `MemoryOps`, with the processor's registers as fields of its machine, and `Proc/Reach`
--   its steps as a relation; `Kernel` is `setup_syscalls` of pivos/src/main.c with the handlers of
--   pivos/src/call, `Kernel/Setup` `setup_devices` and `Kernel/Main` `kernel_main`.
--
-- Words are natural numbers below `2 ^ w`, with the wrap-around written out; a pointer is its number,
-- and an access outside an array or a missing device is the result `none`. Loops without a bound in
-- the code run on fuel: `claim_pages` on `search_fuel`, the loops of the UART on the size of their
-- ring and one more, each of which the results show to be enough; `map_units` on the number of
-- units; the loop that destroys an entry on the fuel that it is given, which `rounds` bounds; the
-- loops over bytes on their count. A shift of a bit-field without a cast is computed as GCC does, in
-- the 36 bits of the field or as a 32-bit `int`, so addresses of 64 GB, or of 2 GB where a block is
-- split, lose bits as they do in the kernel; an index of type `int32_t` that overflows is `none`. An
-- argument, or a field of the device, holds what the code reads from a variable that it has
-- not set.
--
-- Not modelled: the boot code and the vector table in assembly, the linker scripts, the images of the
-- example programs, and granules other than 4 KB.
pub mod Prelude
pub mod Word
pub mod Status
pub mod Register
pub mod Bytes
pub mod Assert
pub mod Buffer
pub mod Allocator
pub mod Mmu
pub mod Memory
pub mod Proc
pub mod Dev
pub mod Call
pub mod Uart
pub mod Timer
pub mod Gic
pub mod Interrupt
pub mod Kernel
