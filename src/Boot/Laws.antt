-- ===== src/Boot/Laws.antt =====
-- The kernel boots.
use mathlib.Core.Path.{sym}
use icix.Prelude.{
  ℕ, ◌+◌, ◌-◌, ◌*◌, ◌^◌, ◌≤◌, ◌<◌, List, ◌∷◌, ◌≡◌, ◌∙◌, refl, ap, arith, length, add32,
}
use icix.Outcome.{Outcome, done, ◌>>=◌, >>=-done}
use icix.Cstring.Laws.{text}
use icix.Terminal.{Terminal, terminal_initialize}
use icix.Printf.Directive.{Arg, Directive}
use icix.Printf.Format.{Printer}
use icix.Interrupts.{CpuState, pre_init_idt, register_int_handler, interrupt_handler}
use icix.Pic.{Ports, pic1_data, pic2_data}
use icix.Pic.Laws.{written_to}
use icix.Frames.First.{IsWords}
use icix.Paging.Init.{Vm, init_paging}
use icix.Paging.Init.Identity.{IsBacked, init_paging-IsBacked}
use icix.Initrd.{InitrdInfo, get_initrd_driver, initrd_instance}
use icix.Initrd.Device.{InWindow, initrd_device, InWindow-Holds, capacity-initrd_device}
use icix.Mkfs.{Pwrite, layout, mkfs}
use icix.Ufs.Layout.{Super, Inode, DirEnt}
use icix.Ufs.State.{Ufs}
use icix.Ufs.Init.Image.{written, root_inode}
use icix.Ufs.Init.Formatted.{IsMounted, ufs_init-mkfs}
use icix.Boot.{
  MultibootHeader, Start, Kernel, page_fault, word_at, start_paging, start_driver, start_filesystem,
  malloc_all, block_sizes, boot,
}
use icix.Boot.Chain.{booted, boot-chain}
use icix.Boot.Console.{greet-shows}
use icix.Boot.Interrupts.{
  registered, handled, interrupt_handler-registered, ReadsMask, start_timer-masks,
}
use icix.Boot.Heap.{malloc-Grows, block_sizes-Leads}

-- What GRUB leaves for a kernel that boots: a module from address `begin` to `end`, with an image that
-- reaches as far as its data region, and enough memory below 4 MB behind it. The heap there has not
-- written over the module or its two addresses.
pub record IsBootable (memory later : ℕ → ℕ) (header : MultibootHeader) (start : Start)
    (begin end num_inodes num_data : ℕ) (writes : List Pwrite) (before : ℕ → ℕ) : Type 0 where
  pub some_module : 0 < header.mods_count
  pub few_modules : header.mods_count < 2 ^ 31
  pub name_ends : length (text header.boot_loader_name) < length header.boot_loader_name
  pub begins : word_at later header.mods_addr ≡ begin
  pub ends : word_at memory (add32 header.mods_addr 4) ≡ end
  pub same_end : word_at later (add32 header.mods_addr 4) ≡ end
  pub ordered : begin < end
  pub low : end + 65764 + 128 * num_inodes ≤ 2 ^ 22
  pub image : (x : ℕ) → later (begin + x) ≡ written before writes x
  pub reaches : (layout num_inodes num_data).data_region_addr * 4096 ≤ end - begin - 1
  pub few_inodes : num_inodes ≤ 32768
  pub few_data : num_data ≤ 32768
  pub length_rest : length start.rest ≡ 96
  pub words : IsWords start.rest
  pub length_handlers : length start.handlers ≡ 256

-- A boot that mounts a volume, with the interrupts and the memory set up.
abbrev pub Boots : ℕ → Super → CpuState → Outcome Kernel → Type 0
Boots end s state o =
    (k : Kernel) × (o ≡ done k)
    × IsMounted s (root_inode s.data_region_addr) k.fs
    × (end < k.vm.free_addr)
    × IsBacked k.vm
    × (rest : List ℕ) × (rest' : List ℕ) × (written_to pic1_data k.ports ≡ 0xFE ∷ rest)
    × (written_to pic2_data k.ports ≡ 0xFF ∷ rest')
    × (interrupt_handler k.handlers state ≡ handled state)

module _ (memory later : ℕ → ℕ) (header : MultibootHeader) (start : Start)
    (begin end num_inodes num_data : ℕ) (writes : List Pwrite) (before : ℕ → ℕ)
    (good : IsBootable memory later header start begin end num_inodes num_data writes before) where
  -- The driver starts at the module.
  start_driver-runs :
      (vm : Vm)
      → IsBacked vm
      → vm.free_addr + 4120 ≤ 2 ^ 22
      → (vm' : Vm) × (start_driver later header vm ≡ done (initrd_instance begin end, vm'))
        × (vm.free_addr ≤ vm'.free_addr)
        × (vm'.free_addr ≤ vm.free_addr + 4120)
        × IsBacked vm'
  unfolding start_driver
  start_driver-runs vm backed small =
      let (ret, vm', e, (low, high, backed')) = malloc-Grows 24 vm backed (omega (arith, small)) in
      (
        vm',
        >>=-done _ e (λ i. done (initrd_instance (good.begins i) (good.same_end i), vm')),
        low,
        omega (arith, high),
        backed',
      )

  instance-InWindow :
      InWindow later begin end good.ordered
        (omega (arith, good.low))
        (initrd_instance begin end)
        (written before writes)
        0
  unfolding initrd_instance
  instance-InWindow = (refl, refl, refl, λ i x. sym (good.image x) i)

  num_inodes-layout : (layout num_inodes num_data).num_inodes ≡ num_inodes
  unfolding layout
  num_inodes-layout = refl

  num_data-layout : (layout num_inodes num_data).num_data ≡ num_data
  unfolding layout
  num_data-layout = refl

  -- The file system is mounted from the module.
  start_filesystem-runs :
      (strcpy : List ℕ → List ℕ → List ℕ) (stack_inodes : List Inode) (stack_entries : List DirEnt)
      (fresh_inode_bp fresh_data_bp : List ℕ) (vm : Vm)
      → mkfs strcpy num_inodes num_data stack_inodes stack_entries ≡ done writes
      → IsBacked vm
      → vm.free_addr + 41032 + 128 * num_inodes ≤ 2 ^ 22
      → (fs : Ufs) × (initrd : InitrdInfo) × (vm' : Vm) × (start_filesystem later fresh_inode_bp
            fresh_data_bp
            (initrd_instance begin end)
            vm
          ≡ done (fs, initrd, vm'))
        × IsMounted
            (layout num_inodes num_data)
            (root_inode (layout num_inodes num_data).data_region_addr)
            fs
        × (vm.free_addr ≤ vm'.free_addr)
        × IsBacked vm'
  unfolding start_filesystem
  start_filesystem-runs strcpy stack_inodes stack_entries fresh_inode_bp fresh_data_bp vm made
        backed small =
      let fits : end < 2 ^ 32 = omega (arith, good.low) in
      let dev = initrd_device later begin end good.ordered fits in
      let s = layout num_inodes num_data in
      let (fs, initrd, e, mounted) =
        ufs_init-mkfs (get_initrd_driver later) dev strcpy num_inodes num_data stack_inodes
          stack_entries writes before fresh_inode_bp fresh_data_bp (initrd_instance begin end) made
          good.few_inodes good.few_data
          (omega (arith, good.reaches, capacity-initrd_device later begin end good.ordered fits))
          (InWindow-Holds later begin end good.ordered fits (initrd_instance begin end)
            (written before writes) 0 instance-InWindow) in
      let (vm', e', (low, high, backed')) =
        block_sizes-Leads s vm (omega (arith, num_inodes-layout, good.few_inodes))
          (omega (arith, num_data-layout, good.few_data)) backed
          (omega (arith, small, num_inodes-layout)) in
      (
        fs,
        initrd,
        vm',
        >>=-done _ e (
            ap (λ t. malloc_all (block_sizes t) vm >>= λ v. done (fs, initrd, v)) mounted.0
            ∙ >>=-done _ e' refl),
        mounted,
        low,
        backed',
      )

  module _
      (put_double : Directive → Printer Terminal → List Arg → Outcome (Printer Terminal × List Arg))
      (device : Ports → ℕ → ℕ) (isr_stub_table : ℕ → ℕ) (gdt_address idt_address : ℕ) where
    -- On controllers whose masks can be read back, with a bootable module with an image of `mkfs`:
    -- `kernel_main` mounts the file system. The volume has the superblock of the image's layout and its
    -- root directory, all memory in use, the module included, is mapped to itself, only the timer's
    -- interrupt line is unmasked, and of the interrupts of the table 32 reaches `timer_callback`, 14
    -- `page_fault`, and any other hangs the machine.
    pub boot-runs :
        (strcpy : List ℕ → List ℕ → List ℕ) (stack_inodes : List Inode)
        (stack_entries : List DirEnt) (state : CpuState)
        → mkfs strcpy num_inodes num_data stack_inodes stack_entries ≡ done writes
        → ReadsMask device
        → state.int_no < 256
        → Boots end (layout num_inodes num_data) state (
            boot put_double memory later device isr_stub_table gdt_address idt_address header start)
    unfolding start_paging
    boot-runs strcpy stack_inodes stack_entries state made reads small =
        let (t1, e1) =
          greet-shows put_double header (terminal_initialize start.cells) good.few_modules
            good.name_ends in
        let (vm, paging, grown, bound, backed) =
          init_paging-IsBacked page_fault (pre_init_idt start.handlers) end start.rest
            good.length_rest good.words (omega (arith, good.ordered)) (omega (arith, good.low)) in
        let (h, rest, rest', timer, first, second) =
          start_timer-masks device
            (register_int_handler (pre_init_idt start.handlers) 14 page_fault) start.ports reads in
        let (vm1, driver, low1, high1, backed1) =
          start_driver-runs vm backed (omega (arith, bound, good.low)) in
        let (fs, initrd, vm2, filesystem, mounted, low2, backed2) =
          start_filesystem-runs strcpy stack_inodes stack_entries start.fresh_inode_bp
            start.fresh_data_bp vm1 made backed1 (omega (arith, bound, high1, good.low)) in
        (
          booted put_double memory later device isr_stub_table gdt_address idt_address start t1
              (registered start.handlers) h vm2 initrd fs,
          boot-chain put_double memory later device isr_stub_table gdt_address idt_address header
              start t1 vm vm1 vm2 (register_int_handler (pre_init_idt start.handlers) 14 page_fault)
              (registered start.handlers) h (initrd_instance begin end) initrd fs e1
              good.some_module
              (ap (λ a. init_paging page_fault (pre_init_idt start.handlers) a start.rest) good.ends
                ∙ paging)
              timer driver filesystem,
          mounted,
          omega (arith, grown, low1, low2),
          backed2,
          rest,
          rest',
          first,
          second,
          interrupt_handler-registered start.handlers state good.length_handlers small,
        )
