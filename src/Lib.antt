-- ===== src/Lib.antt =====
-- icix: a small i386 kernel that boots from GRUB, with a Unix-like file system on a ramdisk.
--
-- The kernel reads its volume through a record of function pointers (disk_driver.h) that the ramdisk
-- driver fills in; the file system keeps the superblock, both bitmaps and the inode table in memory
-- and marks what it changed, which commit_dirty_to_disk writes back. Page frames are handed out from
-- a bitmap of their own, page tables from a heap that only grows. The console, the descriptor tables
-- and the interrupt controllers are the kernel's other state. fs/mkfs.c builds the volume on the host.
--
-- The files:
--   Prelude: shared names, C arrays as lists, 32-bit words and their bits.
--   Outcome: a call returns a value, ends in abort, or has undefined behaviour; postconditions.
--   Bitmap, Disk: the utilities at the top of kernel/kernel/filesystem.c. Disk/Device states what a
--   device must do, and Initrd/Device shows that the ramdisk does it for reading.
--   Initrd: kernel/arch/i386/drivers/initrd.c.
--   Ufs: the rest of kernel/kernel/filesystem.c, one module for each operation: Init, Lookup, Create,
--   Write, Read, Unlink, Commit, and Print for its debug output; Layout has the structures of
--   filesystem.h and their bytes, State the mounted volume, Search the two searches of a bitmap.
--   Frames: the frame allocator of kernel/arch/i386/vmm.c. Paging: get_page there, and kmalloc of
--   kernel/arch/i386/pmm.c; Paging/Init is init_paging, Paging/Heap is malloc.
--   Terminal: kernel/arch/i386/tty.c and vga.h. Gdt: gdt.c. Interrupts: isr.c. Pic: pic.c.
--   Listing: print_file and print_fs_contents of kernel/kernel/kernel.c, over Ufs/Read and Printf.
--   Boot: kernel_main of kernel/kernel/kernel.c, which starts the other parts in order, over the header
--   of multiboot.h; Messages has its texts, Interrupts, Console and Heap are about what it sets up.
--   Timer: init_timer and timer_callback of kernel/kernel/kernel.c.
--   Cstring, Memory: libc/string. Printf: libc/stdio/printf.c, in Number (__int_str), Directive (the
--   reading of a directive) and Format (vprintf and printf), and putchar.c; puts
--   stands with its caller in Ufs/Print.
--   Host: fs/ufs.c, the operations of Ufs over a file descriptor and the C library's heap, and its main.
--   Mkfs: the layout and the writes of fs/mkfs.c; Main has its options and its picture of the layout.
--   Tests: the theorems at concrete inputs.
--
-- Numbers are natural numbers; a 32-bit value is its bit pattern below 2 ^ 32, and an `int` is that
-- pattern too, so -1 is 2 ^ 32 - 1. Wrap-around is written out. State that the source keeps in globals
-- or behind pointers is an argument and a result. What uninitialised memory holds is an argument. A
-- loop is a recursion on the rounds that are left, which the source's bounds give, so no fuel can run
-- out: 30 pointers of an inode, 128 entries of a block, the numbers of inodes, blocks and frame words,
-- the 25 rows of 80 cells of the screen. Some loops have an explicit fuel: vprintf the length of its
-- format, since each round takes a character; the loops over pages in init_paging and malloc 2 ^ 20,
-- the number of pages there are; the listing of a file or a directory a round for each byte or entry
-- that its size has room for, and one more. The depth of a listing is an argument: a directory that
-- holds itself under a name with d is listed without end.
--
-- What memory holds is an argument of the boot twice, before and after the heap behind the module is in
-- use; the kernel's own structures in the heap are values of their own, which nothing else overwrites.
--
-- Not modelled: the floating-point directives of printf, which are a parameter, the loop in which
-- kernel_main halts, assembly, what fs/ufs.c prints, and arch/i386/tmp.c, an old draft that is not
-- built.
pub mod Boot
pub mod Prelude
pub mod Outcome
pub mod Bitmap
pub mod Frames
pub mod Disk
pub mod Initrd
pub mod Cstring
pub mod Ufs
pub mod Memory
pub mod Terminal
pub mod Gdt
pub mod Host
pub mod Interrupts
pub mod Listing
pub mod Paging
pub mod Pic
pub mod Mkfs
pub mod Timer
pub mod Printf
pub mod Tests
