-- ===== src/Tests/Booting.antt =====
-- A boot from a small image.
use icix.Prelude.{
  ℕ, zero, suc, ◌+◌, ◌-◌, ◌*◌, ◌^◌, ◌≤◌, ◌<◌, ◌==◌, leb, ltb, if◌then◌else◌, List, [], ◌∷◌, ◌≡◌,
  refl, ap, arith, get_or, replicate, length-replicate, none, true, false, Option,
}
use icix.Outcome.{Outcome, undefined}
use icix.Host as Host
use icix.Printf.Directive.{Arg, Directive}
use icix.Printf.Format.{Printer}
use icix.Terminal.{Terminal}
use icix.Interrupts.{CpuState}
use icix.Pic.{Ports}
use icix.Pic.Laws.{written_to}
use icix.Initrd.{bytes_from}
use icix.Mkfs.{layout}
use icix.Ufs.Layout.{word_of}
use icix.Ufs.Init.Image.{written}
use icix.Boot.{MultibootHeader, Handler, Start, boot}
use icix.Boot.Interrupts.{ReadsMask}
use icix.Boot.Laws.{IsBootable, Boots, boot-runs}
use icix.Tests.Volumes.{image, formatted}

-- The words of the module at 0x500, and the module from 0x10000 to 0x18000.
abbrev memory : ℕ → ℕ
memory x =
    if leb 0x10000 x
    then written (λ a. 0) image (x - 0x10000)
    else if x == 0x502
    then 1
    else if x == 0x505
    then 0x80
    else if x == 0x506
    then 1
    else 0

abbrev header : MultibootHeader
header = record {
  flags = 0;
  mem_lower = 0;
  mem_upper = 0;
  boot_device = 0;
  cmdline = 0;
  mods_count = 1;
  mods_addr = 0x500;
  num = 0;
  size = 0;
  addr = 0;
  shndx = 0;
  mmap_length = 0;
  mmap_addr = 0;
  drives_length = 0;
  drives_addr = 0;
  config_table = 0;
  boot_loader_name = b'G' ∷ 0 ∷ [];
  apm_table = 0;
  vbe_control_info = 0;
  vbe_mode_info = 0;
  vbe_mode = 0;
  vbe_interface_seg = 0;
  vbe_interface_off = 0;
  vbe_interface_len = 0;
}

abbrev start : Start
start = record {
  cells = λ x. 0;
  handlers = replicate 256 none;
  idt = [];
  ports = [];
  rest = replicate 96 0;
  fresh_inode_bp = 0 ∷ [];
  fresh_data_bp = 0 ∷ [];
}

-- Each port reads as the last byte written there.
abbrev last_written : Ports → ℕ → ℕ
last_written h port = get_or (written_to port h) 0 0

last_written-ReadsMask : ReadsMask last_written
last_written-ReadsMask h a b c v w small = refl

abbrev no_numbers : Directive → Printer Terminal → List Arg → Outcome (Printer Terminal × List Arg)
no_numbers s p args = undefined

abbrev timer_interrupt : CpuState
timer_interrupt = record {
  cr2 = 0;
  edi = 0;
  esi = 0;
  ebp = 0;
  esp = 0;
  ebx = 0;
  edx = 0;
  ecx = 0;
  eax = 0;
  int_no = 32;
  err_code = 0;
  eip = 0;
  cs = 8;
  eflags = 0;
  useresp = 0;
  ss = 16;
}

words_clear : (i : ℕ) → get_or (replicate 96 0) i 0 < 2 ^ 32
words_clear i = go 96 i
  where
    go : (n i : ℕ) → get_or (replicate n 0) i 0 < 2 ^ 32
    go zero i = omega arith
    go (suc n) zero = omega arith
    go (suc n) (suc i) = go n i

image_there : (x : ℕ) → memory (0x10000 + x) ≡ written (λ a. 0) image x
image_there x =
    let t : leb 0x10000 (0x10000 + x) ≡ true = ground arith in
    let e : 0x10000 + x - 0x10000 ≡ x = omega arith in rw (t) (ap (written (λ a. 0) image) e)

region_fits : (layout 32 32).data_region_addr * 4096 ≤ 0x18000 - 0x10000 - 1
unfolding layout
region_fits = omega arith

-- The boot has written over the first bytes of memory.
abbrev used_memory : ℕ → ℕ
used_memory a = if ltb a 4 then 255 else memory a

image_kept : (x : ℕ) → used_memory (0x10000 + x) ≡ written (λ a. 0) image x
image_kept x = let t : ltb (0x10000 + x) 4 ≡ false = ground arith in rw t (image_there x)

start-IsBootable : IsBootable memory used_memory header start 0x10000 0x18000 32 32 image (λ a. 0)
unfolding bytes_from word_of
start-IsBootable = record {
  some_module = omega arith;
  few_modules = omega arith;
  name_ends = omega arith;
  begins = refl;
  ends = refl;
  same_end = refl;
  ordered = omega arith;
  low = omega arith;
  image = image_kept;
  reaches = region_fits;
  few_inodes = omega arith;
  few_data = omega arith;
  length_rest = length-replicate {A = ℕ} 96 0;
  words = words_clear;
  length_handlers = length-replicate {A = Option Handler} 256 none;
}

boot-runs_example :
    Boots 0x18000
      (layout 32 32)
      timer_interrupt
      (boot no_numbers memory used_memory last_written (λ v. v * 16) 0x1000 0x2000 header start)
boot-runs_example =
    boot-runs memory used_memory header start 0x10000 0x18000 32 32 image (λ a. 0) start-IsBootable
      no_numbers last_written (λ v. v * 16) 0x1000 0x2000 Host.strcpy [] [] timer_interrupt
      formatted last_written-ReadsMask (omega arith)
