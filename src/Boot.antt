-- ===== src/Boot.antt =====
-- `kernel_main` of kernel/kernel/kernel.c, up to the loop in which it halts, over the parts that it
-- starts. Memory is what GRUB left, as far as the boot reads it: the words at `mods_addr` and the
-- ramdisk; what uninitialised memory holds is a parameter.
pub mod Messages
pub mod Interrupts
pub mod Console
pub mod Heap
pub mod Chain
pub mod Laws
use icix.Prelude.{ℕ, ◌*◌, ◌==◌, ltb, if◌then◌else◌, List, [], ◌∷◌, ◌++◌, Option, add32, mul32}
use icix.Outcome.{Outcome, done, aborted, ◌>>=◌}
use icix.Terminal.{Terminal, terminal_initialize}
use icix.Printf.Directive.{Arg, int_arg, string_arg, Directive}
use icix.Printf.Format.{Printer, printf, putchar}
use icix.Gdt.{GdtEntry, GdtPtr, init_gdt}
use icix.Interrupts.{IdtEntry, IdtPtr, pre_init_idt, init_idt}
use icix.Pic.{Ports, pic_remap, pic_disable, irq_clear_mask}
use icix.Timer.{init_timer}
use icix.Paging.Init.{Vm, init_paging}
use icix.Paging.Heap.{malloc}
use icix.Initrd.{InitrdInfo, bytes_from, get_initrd_driver, initrd_instance}
use icix.Bitmap.{get_bitmap_sz}
use icix.Ufs.Layout.{Super, word_of}
use icix.Ufs.State.{Ufs}
use icix.Ufs.Init.{ufs_init}
use icix.Listing.{Machine, print_fs_contents}
use icix.Boot.Messages.{
  modules_text, booted_text, descriptors_text, ok_text, paging_text, pic_text, initrd_text,
  filesystem_text, done_text, last_text,
}

-- `multiboot_header_t`; a name is given by the bytes behind its pointer.
pub record MultibootHeader : Type 0 where
  pub flags : ℕ
  pub mem_lower : ℕ
  pub mem_upper : ℕ
  pub boot_device : ℕ
  pub cmdline : ℕ
  pub mods_count : ℕ
  pub mods_addr : ℕ
  pub num : ℕ
  pub size : ℕ
  pub addr : ℕ
  pub shndx : ℕ
  pub mmap_length : ℕ
  pub mmap_addr : ℕ
  pub drives_length : ℕ
  pub drives_addr : ℕ
  pub config_table : ℕ
  pub boot_loader_name : List ℕ
  pub apm_table : ℕ
  pub vbe_control_info : ℕ
  pub vbe_mode_info : ℕ
  pub vbe_mode : ℕ
  pub vbe_interface_seg : ℕ
  pub vbe_interface_off : ℕ
  pub vbe_interface_len : ℕ

-- The handlers that the kernel registers.
pub data Handler : Type 0 where
  page_fault timer_callback : Handler

-- What the boot finds: the screen, the tables of isr.c, the accesses of ports before it, and what
-- memory holds behind the cleared frame words and in the blocks of the dirty bitmaps.
pub record Start : Type 0 where
  pub cells : ℕ → ℕ
  pub handlers : List (Option Handler)
  pub idt : List IdtEntry
  pub ports : Ports
  pub rest : List ℕ
  pub fresh_inode_bp : List ℕ
  pub fresh_data_bp : List ℕ

-- What it sets up.
pub record Kernel : Type 0 where
  pub console : Terminal
  pub gdt : List GdtEntry × GdtPtr
  pub idt : List IdtEntry × IdtPtr
  pub handlers : List (Option Handler)
  pub ports : Ports
  pub vm : Vm
  pub initrd : InitrdInfo
  pub fs : Ufs

-- `*(uint32_t*)addr`
abbrev pub word_at : (ℕ → ℕ) → ℕ → ℕ
word_at memory addr = word_of (bytes_from memory addr 4)

-- `assert` of libc/assert/assert.c, less its message.
abbrev pub assert : ℕ → Outcome (Unit {0})
assert abrt = if abrt == 0 then aborted else done tt

-- Blocks from the heap, one after the other.
unfoldable pub malloc_all : List ℕ → Vm → Outcome Vm
malloc_all [] vm = done vm
malloc_all (size ∷ sizes) vm = do (_, vm1) ← malloc size vm; malloc_all sizes vm1

-- The blocks that `ufs_init` takes: the structure, the four bitmaps and the inodes.
abbrev pub block_sizes : Super → List ℕ
block_sizes s =
    let inode_bp = mul32 (get_bitmap_sz s.num_inodes) 4 in
    let data_bp = mul32 (get_bitmap_sz s.num_data) 4 in
    72 ∷ inode_bp ∷ data_bp ∷ inode_bp ∷ data_bp ∷ mul32 128 s.num_inodes ∷ []

-- Paging, with the memory behind the module as the heap.
unfoldable pub start_paging :
    (ℕ → ℕ)
    → MultibootHeader
    → List (Option Handler)
    → List ℕ
    → Outcome (Vm × List (Option Handler))
start_paging memory header handlers rest =
    init_paging page_fault handlers (word_at memory (add32 header.mods_addr 4)) rest

-- The interrupt controllers and the timer.
unfoldable pub start_timer :
    (Ports → ℕ → ℕ) → List (Option Handler) → Ports → Outcome (List (Option Handler) × Ports)
unfolding pic_remap pic_disable init_timer irq_clear_mask
start_timer device handlers ports = do
  (handlers1, ports1) ←
      init_timer 50 timer_callback handlers (pic_disable (pic_remap device 0x20 0x28 ports))
  done (handlers1, irq_clear_mask device 0 ports1)

-- The driver, whose table of pointers has 24 bytes.
unfoldable pub start_driver : (ℕ → ℕ) → MultibootHeader → Vm → Outcome (InitrdInfo × Vm)
unfolding initrd_instance
start_driver memory header vm = do
  (_, vm1) ← malloc 24 vm
  done (
    initrd_instance (word_at memory header.mods_addr) (word_at memory (add32 header.mods_addr 4)),
    vm1,
  )

-- The file system on it.
unfoldable pub start_filesystem :
    (ℕ → ℕ) → List ℕ → List ℕ → InitrdInfo → Vm → Outcome (Ufs × InitrdInfo × Vm)
unfolding ufs_init malloc_all get_initrd_driver
start_filesystem memory fresh_inode_bp fresh_data_bp initrd vm = do
  (fs, initrd1) ← ufs_init (get_initrd_driver memory) fresh_inode_bp fresh_data_bp initrd
  vm1 ← malloc_all (block_sizes fs.s) vm
  done (fs, initrd1, vm1)

module _
    (put_double : Directive
      → Printer Terminal
      → List Arg
      → Outcome (Printer Terminal × List Arg)) where
  -- A message without directives.
  unfoldable pub announce : List ℕ → Terminal → Outcome Terminal
  unfolding printf
  announce text t = do (t1, _) ← printf putchar put_double (text ++ 0 ∷ []) [] t; done t1

  -- The first message.
  unfoldable pub greet : MultibootHeader → Terminal → Outcome Terminal
  unfolding printf
  greet header t = do
    (t1, _) ←
        printf putchar put_double
          (modules_text ++ b'%' ∷ b'd' ∷ (booted_text ++ b'%' ∷ b's' ∷ 10 ∷ 0 ∷ []))
          (int_arg header.mods_count ∷ string_arg header.boot_loader_name ∷ []) t
    done t1

module _
    (put_double : Directive → Printer Terminal → List Arg → Outcome (Printer Terminal × List Arg))
    (memory later : ℕ → ℕ) (device : Ports → ℕ → ℕ) (isr_stub_table : ℕ → ℕ)
    (gdt_address idt_address : ℕ) where
  -- `kernel_main` until the file system is mounted. `memory` is what memory holds at first, `later`
  -- what it holds once the heap behind the module is in use.
  unfoldable pub boot : MultibootHeader → Start → Outcome Kernel
  boot header start = do
    let handlers = pre_init_idt start.handlers
    t1 ← greet put_double header (terminal_initialize start.cells)
    t2 ← announce put_double descriptors_text t1
    t3 ← announce put_double ok_text t2
    _ ← assert (if ltb 0 header.mods_count then 1 else 0)
    t4 ← announce put_double paging_text t3
    (vm, handlers1) ← start_paging memory header handlers start.rest
    t5 ← announce put_double pic_text t4
    (handlers2, ports) ← start_timer device handlers1 start.ports
    t6 ← announce put_double initrd_text t5
    (initrd, vm1) ← start_driver later header vm
    t7 ← announce put_double filesystem_text t6
    (fs, initrd1, vm2) ← start_filesystem later start.fresh_inode_bp start.fresh_data_bp initrd vm1
    t8 ← announce put_double done_text t7
    done (record {
      console = t8;
      gdt = init_gdt gdt_address;
      idt = init_idt isr_stub_table idt_address start.idt;
      handlers = handlers2;
      ports = ports;
      vm = vm2;
      initrd = initrd1;
      fs = fs;
    })

  -- All of it, with `depth` for the calls of `print_fs_contents` in one another.
  unfoldable pub kernel_main : ℕ → MultibootHeader → Start → Outcome Kernel
  unfolding boot print_fs_contents printf
  kernel_main depth header start = do
    k ← boot header start
    m ←
        print_fs_contents putchar put_double (get_initrd_driver later) k.fs depth 0
          (record { console = k.console; device = k.initrd; vm = k.vm })
    t ← announce put_double last_text m.console
    done (record k { console = t; initrd = m.device; vm = m.vm })
