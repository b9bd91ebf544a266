-- ===== src/Pic/Laws.antt =====
-- The masks that the controllers hold after a change of one line, and the order of the remapping.
use native.Mathlib.Nat.{pow-le-pow_right}
use icix.Prelude.{ℕ, ◌-◌, ◌%◌, ◌^◌, ◌≤◌, ◌<◌, ◌==◌, if◌then◌else◌, ltb, List, [], ◌∷◌}
use icix.Prelude.{
  ◌≡◌, ◌∙◌, ap, arith, inl, inr, Bool-cases, false, u8, bit, bit-set_bit, bit-clear_bit,
}
use icix.Prelude.{shl32, shl32-one, not32, bit_or, bit_and, bit_or-lt, bit_and-le}
use icix.Pic.{wrote, has_read, Ports, pic1_data, pic2_data, irq_set_mask, irq_clear_mask}
use icix.Pic.{pic_remap}

pow-lt-byte : (k : ℕ) → k < 8 → 2 ^ k < 2 ^ 8
pow-lt-byte k h =
    let le : 2 ^ k ≤ 2 ^ 7 = pow-le-pow_right (omega arith) {i = k} {j = 7} (omega arith) in
    omega (arith, le)

set_value :
    (old line q : ℕ)
    → old < 2 ^ 8
    → line < 8
    → bit (u8 (u8 (bit_or (u8 old) (shl32 1 line)))) q ≡ (if line == q then 1 else bit old q)
set_value old line q small h =
    let byte : u8 old ≡ old = omega arith in
    let mask : shl32 1 line ≡ 2 ^ line = shl32-one line ∙ ap (λ n. 2 ^ n) (omega arith) in
    let fits : u8 (u8 (bit_or old (2 ^ line))) ≡ bit_or old (2 ^ line) =
      omega (arith, bit_or-lt 8 old (2 ^ line) small (pow-lt-byte line h)) in
    rw (byte, mask, fits) (bit-set_bit old line q)

clear_value :
    (old line q : ℕ)
    → old < 2 ^ 8
    → line < 8
    → q < 8
    → bit (u8 (u8 (bit_and (u8 old) (not32 (shl32 1 line))))) q
      ≡ (if line == q then 0 else bit old q)
clear_value old line q small h hq =
    let byte : u8 old ≡ old = omega arith in
    let mask : shl32 1 line ≡ 2 ^ line = shl32-one line ∙ ap (λ n. 2 ^ n) (omega arith) in
    let fits : u8 (u8 (bit_and old (not32 (2 ^ line)))) ≡ bit_and old (not32 (2 ^ line)) =
      omega (arith, bit_and-le old old (not32 (2 ^ line)) (omega arith)) in
    rw (byte, mask, fits) (bit-clear_bit old line q (omega arith) (omega arith))

-- The bytes written to a port, the last one first.
abbrev pub written_to : ℕ → Ports → List ℕ
written_to port [] = []
written_to port (wrote p v ∷ h) = if p == port then v ∷ written_to port h else written_to port h
written_to port (has_read p ∷ h) = written_to port h

module _ (device : Ports → ℕ → ℕ) where
  -- The documented behaviour of an initialised 8259A: reading the data port gives the mask, a byte,
  -- that was last written there, and neither a read nor a write for the other controller changes it.
  pub record KeepsMasks (h : Ports) : Type 0 where
    pub is_byte : (p : ℕ) → device h p < 2 ^ 8
    pub reads_back : (p v : ℕ) → v < 2 ^ 8 → device (wrote p v ∷ has_read p ∷ h) p ≡ v
    pub leaves_second :
        (v : ℕ) → device (wrote pic1_data v ∷ has_read pic1_data ∷ h) pic2_data ≡ device h pic2_data
    pub leaves_first :
        (v : ℕ) → device (wrote pic2_data v ∷ has_read pic2_data ∷ h) pic1_data ≡ device h pic1_data

  -- Whether a line is masked, 1 or 0.
  abbrev pub masked : Ports → ℕ → ℕ
  masked h irq = bit (device h (if ltb irq 8 then pic1_data else pic2_data)) (irq % 8)

  -- For a line below 16, and controllers that keep their masks: `IRQ_set_mask` masks exactly that
  -- line, and the other 15 stay as they were.
  pub masked-irq_set_mask :
      (h : Ports) (irq k : ℕ)
      → KeepsMasks h
      → irq < 16
      → k < 16
      → masked (irq_set_mask device irq h) k ≡ (if irq == k then 1 else masked h k)
  unfolding irq_set_mask
  masked-irq_set_mask h irq k keeps small small_k = elim (Bool-cases (ltb irq 8)) [
    | inl e ↦
        let old = device h pic1_data in
        let byte = keeps.is_byte pic1_data in
        elim (Bool-cases (ltb k 8)) [
          | inl f ↦
              let same_line : k % 8 ≡ k = ground (arith, f) in
              rw (e, f, same_line)
                (ap (λ v. bit v k) (keeps.reads_back pic1_data _ (omega arith))
                  ∙ set_value old irq k byte (ground arith))
          | inr f ↦
              let other : (irq == k) ≡ false = ground (arith, e, f) in
              rw (e, f, other) (ap (λ v. bit v (k % 8)) (keeps.leaves_second _))
        ]
    | inr e ↦
        let old = device h pic2_data in
        let byte = keeps.is_byte pic2_data in
        elim (Bool-cases (ltb k 8)) [
          | inl f ↦
              let other : (irq == k) ≡ false = ground (arith, e, f) in
              rw (e, f, other) (ap (λ v. bit v (k % 8)) (keeps.leaves_first _))
          | inr f ↦
              let same_line : k % 8 ≡ k - 8 = ground (arith, f) in
              let same_test : (irq == k) ≡ (irq - 8 == k - 8) = ground (arith, e, f) in
              rw (e, f, same_line, same_test)
                (ap (λ v. bit v (k - 8)) (keeps.reads_back pic2_data _ (omega arith))
                  ∙ set_value old (irq - 8) (k - 8) byte (ground arith))
        ]
  ]

  -- For a line below 16, and controllers that keep their masks: `IRQ_clear_mask` unmasks exactly
  -- that line, and the other 15 stay as they were.
  pub masked-irq_clear_mask :
      (h : Ports) (irq k : ℕ)
      → KeepsMasks h
      → irq < 16
      → k < 16
      → masked (irq_clear_mask device irq h) k ≡ (if irq == k then 0 else masked h k)
  unfolding irq_clear_mask
  masked-irq_clear_mask h irq k keeps small small_k = elim (Bool-cases (ltb irq 8)) [
    | inl e ↦
        let old = device h pic1_data in
        let byte = keeps.is_byte pic1_data in
        elim (Bool-cases (ltb k 8)) [
          | inl f ↦
              let same_line : k % 8 ≡ k = ground (arith, f) in
              rw (e, f, same_line)
                (ap (λ v. bit v k) (keeps.reads_back pic1_data _ (omega arith))
                  ∙ clear_value old irq k byte (ground arith) (ground arith))
          | inr f ↦
              let other : (irq == k) ≡ false = ground (arith, e, f) in
              rw (e, f, other) (ap (λ v. bit v (k % 8)) (keeps.leaves_second _))
        ]
    | inr e ↦
        let old = device h pic2_data in
        let byte = keeps.is_byte pic2_data in
        elim (Bool-cases (ltb k 8)) [
          | inl f ↦
              let other : (irq == k) ≡ false = ground (arith, e, f) in
              rw (e, f, other) (ap (λ v. bit v (k % 8)) (keeps.leaves_first _))
          | inr f ↦
              let same_line : k % 8 ≡ k - 8 = ground (arith, f) in
              let same_test : (irq == k) ≡ (irq - 8 == k - 8) = ground (arith, e, f) in
              rw (e, f, same_line, same_test)
                (ap (λ v. bit v (k - 8)) (keeps.reads_back pic2_data _ (omega arith))
                  ∙ clear_value old (irq - 8) (k - 8) byte (ground arith) (ground arith))
        ]
  ]

  -- `PIC_remap` with any controllers: each data port gets its vector offset, its place in the
  -- cascade, the mode and at last the byte that was read from it before, in this order.
  pub written_to-pic_remap :
      (offset1 offset2 : ℕ) (h : Ports)
      → (written_to pic1_data (pic_remap device offset1 offset2 h)
          ≡ u8 (device h pic1_data) ∷ 1 ∷ 4 ∷ u8 offset1 ∷ written_to pic1_data h)
        × (written_to pic2_data (pic_remap device offset1 offset2 h)
            ≡ u8 (device (has_read pic1_data ∷ h) pic2_data)
              ∷ 1
              ∷ 2
              ∷ u8 offset2
              ∷ written_to pic2_data h)
  unfolding pic_remap
  written_to-pic_remap offset1 offset2 h = (ground arith, ground arith)
