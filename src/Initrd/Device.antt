-- ===== src/Initrd/Device.antt =====
-- The ramdisk is a readable device: its bytes are the window, without the last one.
use icix.Prelude.{ℕ, zero, suc, ◌%◌, false, ◌+◌, ◌-◌, ◌^◌, ◌≤◌, ◌<◌, leb, ◌∷◌}
use icix.Prelude.{◌≡◌, refl, arith, add32, ap, ◌∙◌}
use icix.Outcome.{done}
use icix.Disk.Device.{bytes_at, ReadableDevice}
use icix.Initrd.{InitrdInfo, bytes_from, initrd_read, initrd_lseek, get_initrd_driver}

module _ (memory : ℕ → ℕ) (start stop : ℕ) (ordered : start < stop) (fits : stop < 2 ^ 32) where
  abbrev pub window : ℕ → ℕ
  window x = memory (start + x)

  abbrev pub InWindow : InitrdInfo → (ℕ → ℕ) → ℕ → Type 0
  InWindow s content k =
      (s.start_addr ≡ start) × (s.end_addr ≡ stop) × (s.cursor ≡ k) × (content ≡ window)

  bytes_from-eq-bytes_at :
      (a n : ℕ) → start + a + n < 2 ^ 32 → bytes_from memory (start + a) n ≡ bytes_at window a n
  unfolding bytes_from bytes_at
  bytes_from-eq-bytes_at a zero h = refl
  bytes_from-eq-bytes_at a (suc n) h =
      let e : add32 (start + a) 1 ≡ start + (a + 1) = omega arith in
      ap (λ t. memory (start + a) ∷ t)
        (ap (λ t. bytes_from memory t n) e ∙ bytes_from-eq-bytes_at (a + 1) n (omega arith))

  initrd_lseek_lem :
      (s : InitrdInfo) (content : ℕ → ℕ) (k a : ℕ)
      → InWindow s content k
      → a ≤ stop - start - 1
      → (s' : InitrdInfo) × (initrd_lseek a s ≡ done (0, s')) × InWindow s' content a
  unfolding initrd_lseek
  initrd_lseek_lem s content k a h p =
      let e : (s.start_addr + a) % 2 ^ 32 ≡ s.start_addr + a = omega arith in
      (record s { cursor = a }, ground (arith, e), (h.0, h.1, refl, h.3))

  initrd_read_lem :
      (s : InitrdInfo) (content : ℕ → ℕ) (k n : ℕ)
      → InWindow s content k
      → 0 < n
      → k + n ≤ stop - start - 1
      → (s' : InitrdInfo) × (initrd_read memory n s ≡ done (n, bytes_at content k n, s'))
        × InWindow s' content (k + n)
  unfolding initrd_read
  initrd_read_lem s content k n h pos p =
      let e : (s.start_addr + s.cursor) % 2 ^ 32 ≡ start + k = omega arith in
      let e2 : (start + k + n) % 2 ^ 32 ≡ start + k + n = omega arith in
      let e3 : (s.cursor + n) % 2 ^ 32 ≡ k + n = omega arith in
      let t : leb s.end_addr ((start + k + n) % 2 ^ 32) ≡ false = ground (arith, e2) in
      (
        record s { cursor = k + n },
        rw (e, t, e3, h.3, bytes_from-eq-bytes_at k n (omega arith)),
        (h.0, h.1, refl, h.3),
      )

  -- The driver that `get_initrd_driver` builds is a readable device of all but the last byte of its
  -- window.
  pub initrd_device : ReadableDevice (get_initrd_driver memory)
  unfolding get_initrd_driver
  initrd_device = record {
    capacity = stop - start - 1;
    small = omega arith;
    Holds = InWindow;
    lseek_lem = initrd_lseek_lem;
    read_lem = initrd_read_lem;
  }

  -- A state of the window as a state of that device.
  pub InWindow-Holds :
      (s : InitrdInfo) (content : ℕ → ℕ) (k : ℕ)
      → InWindow s content k
      → initrd_device.Holds s content k
  unfolding initrd_device
  InWindow-Holds s content k h = h

  pub capacity-initrd_device : initrd_device.capacity ≡ stop - start - 1
  unfolding initrd_device
  capacity-initrd_device = refl
