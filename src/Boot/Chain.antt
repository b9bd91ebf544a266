-- ===== src/Boot/Chain.antt =====
-- The steps of the boot, put together.
use icix.Prelude.{ℕ, ◌<◌, ltb, List, ◌≡◌, refl, arith, length, true, Option}
use icix.Outcome.{Outcome, done, ◌>>=◌}
use icix.Cstring.Laws.{text}
use icix.Terminal.{Terminal, terminal_initialize, terminal_write}
use icix.Printf.Directive.{Arg, Directive}
use icix.Printf.Format.{Printer}
use icix.Gdt.{init_gdt}
use icix.Interrupts.{init_idt, pre_init_idt}
use icix.Pic.{Ports}
use icix.Paging.Init.{Vm}
use icix.Initrd.{InitrdInfo}
use icix.Ufs.State.{Ufs}
use icix.Boot.{
  MultibootHeader, Start, Kernel, Handler, greet, start_paging, start_timer, start_driver,
  start_filesystem, boot,
}
use icix.Boot.Messages.{
  descriptors_text, ok_text, paging_text, pic_text, initrd_text, filesystem_text, done_text,
}
use icix.Boot.Console.{announce-writes}

some_modules : (n : ℕ) → 0 < n → ltb 0 n ≡ true
some_modules n h = ground (arith, h)

-- The console after a message, and after the messages behind the first.
abbrev pub after : List ℕ → Terminal → Terminal
after text t = terminal_write t text (length text)

abbrev pub all_messages : Terminal → Terminal
all_messages t = after done_text (
    after filesystem_text (
      after initrd_text
        (after pic_text (after paging_text (after ok_text (after descriptors_text t))))))

module _
    (put_double : Directive → Printer Terminal → List Arg → Outcome (Printer Terminal × List Arg))
    (memory later : ℕ → ℕ) (device : Ports → ℕ → ℕ) (isr_stub_table : ℕ → ℕ)
    (gdt_address idt_address : ℕ) where
  abbrev pub booted :
      Start → Terminal → List (Option Handler) → Ports → Vm → InitrdInfo → Ufs → Kernel
  booted start t handlers ports vm initrd fs = record {
    console = all_messages t;
    gdt = init_gdt gdt_address;
    idt = init_idt isr_stub_table idt_address start.idt;
    handlers = handlers;
    ports = ports;
    vm = vm;
    initrd = initrd;
    fs = fs;
  }

  -- The steps of the boot, one after the other.
  pub boot-chain :
      (header : MultibootHeader) (start : Start) (t1 : Terminal) (vm vm1 vm2 : Vm)
      (handlers1 handlers2 : List (Option Handler)) (ports : Ports) (initrd initrd1 : InitrdInfo)
      (fs : Ufs)
      → greet put_double header (terminal_initialize start.cells) ≡ done t1
      → 0 < header.mods_count
      → start_paging memory header (pre_init_idt start.handlers) start.rest ≡ done (vm, handlers1)
      → start_timer device handlers1 start.ports ≡ done (handlers2, ports)
      → start_driver later header vm ≡ done (initrd, vm1)
      → start_filesystem later start.fresh_inode_bp start.fresh_data_bp initrd vm1
        ≡ done (fs, initrd1, vm2)
      → boot put_double memory later device isr_stub_table gdt_address idt_address header start
        ≡ done (booted start t1 handlers2 ports vm2 initrd1 fs)
  unfolding boot
  boot-chain header start t1 vm vm1 vm2 handlers1 handlers2 ports initrd initrd1 fs e1 some e2 e3 e4
        e5 =
      let t : ltb 0 header.mods_count ≡ true = some_modules header.mods_count some in
      let u2 = after descriptors_text t1 in
      let u3 = after ok_text u2 in
      let u4 = after paging_text u3 in
      let u5 = after pic_text u4 in
      let u6 = after initrd_text u5 in
      let u7 = after filesystem_text u6 in
      rw (e1, ◌>>=◌)
        (rw (announce-writes put_double descriptors_text t1 refl, ◌>>=◌)
          (rw (announce-writes put_double ok_text u2 refl, ◌>>=◌)
            (rw t (
              rw (announce-writes put_double paging_text u3 refl, ◌>>=◌)
                (rw (e2, ◌>>=◌)
                  (rw (announce-writes put_double pic_text u4 refl, ◌>>=◌)
                    (rw (e3, ◌>>=◌)
                      (rw (announce-writes put_double initrd_text u5 refl, ◌>>=◌)
                        (rw (e4, ◌>>=◌)
                          (rw (announce-writes put_double filesystem_text u6 refl, ◌>>=◌)
                            (rw (e5, ◌>>=◌)
                              (rw (announce-writes put_double done_text u7 refl, ◌>>=◌)
                                refl))))))))))))
