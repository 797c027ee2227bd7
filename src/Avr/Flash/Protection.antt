-- ===== src/Avr/Flash/Protection.antt =====
-- What src/avr/flash.c leaves of the bootloader's own pages.
use cannuccia.Common.{
  ℕ, ◌+◌, ◌-◌, ◌*◌, ◌/◌, ◌≤◌, ◌<◌, ◌≡◌, refl, ◌∙◌, false, ◌&&◌, ◌||◌, List, [], ◌∷◌, u16, ltb, ◌==◌,
  arith, Bool-cases, inl, inr,
}
use cannuccia.Avr.Flash.{
  Boot, Flash, begin_write, fill, fill_loop, end_write, flash_unlock, program, flash_size,
  bootloader_size, page_size,
}
use cannuccia.Avr.Flash.Hardware.{SelfProgramming}

-- Where the bootloader begins.
abbrev pub bootloader_start : ℕ
bootloader_start = flash_size - bootloader_size

module _ {B : Type 0} (boot : Boot B) (byte word : ℕ → B → ℕ)
    (laws : SelfProgramming boot byte word) (first : B) where
  -- The page being programmed lies in front of the bootloader, and the bootloader's bytes are those
  -- of `first`.
  pub record IsProtected (f : Flash B) : Type 0 where
    pub in_front : f.cur_page_addr + page_size ≤ bootloader_start
    pub untouched :
        (x : ℕ) → bootloader_start ≤ x → x < flash_size → byte x f.hardware ≡ byte x first

  pub flash_unlock-IsProtected : (f : Flash B) → IsProtected f → IsProtected (flash_unlock boot f).0
  unfolding flash_unlock
  flash_unlock-IsProtected f p = record { in_front = p.in_front; untouched = p.untouched }

  pub begin_write-IsProtected :
      (a : ℕ) (f : Flash B)
      → a + page_size ≤ bootloader_start
      → IsProtected f
      → IsProtected (begin_write boot a f).0
  unfolding begin_write
  begin_write-IsProtected a f h p = record { in_front = h; untouched = p.untouched }

  byte-fill_loop :
      (offset size written addr : ℕ) (bytes : List ℕ) (b : B) (x : ℕ)
      → byte x (fill_loop boot offset size written addr bytes b).0 ≡ byte x b
  unfolding fill_loop
  byte-fill_loop offset size written addr [] b x = refl
  byte-fill_loop offset size written addr (lo ∷ []) b x = refl
  byte-fill_loop offset size written addr (lo ∷ hi ∷ bytes) b x =
      elim (Bool-cases (ltb written size && ltb (u16 (written + offset)) page_size)) [
        | inl more ↦ rw more (
            byte-fill_loop offset size (u16 (written + 2)) (u16 (addr + 2)) bytes
              (boot.page_fill addr (lo + hi * 256) b) x
            ∙ laws.fill_byte addr (lo + hi * 256) x b)
        | inr over ↦ rw over refl
      ]

  pub fill-IsProtected :
      (offset size : ℕ) (bytes : List ℕ) (f : Flash B)
      → IsProtected f
      → IsProtected (fill boot offset size bytes f).0
  unfolding fill
  fill-IsProtected offset size bytes f p = elim (Bool-cases (f.cur_page_addr == 0)) [
    | inl none ↦ rw none p
    | inr some_page ↦ rw some_page (record {
      in_front = p.in_front;
      untouched = λ x low high.
          byte-fill_loop offset size 0 (u16 (f.cur_page_addr + offset)) bytes f.hardware x
          ∙ p.untouched x low high;
    })
  ]

  -- Programming a page leaves the bytes of the other pages.
  byte-program_elsewhere :
      (a x : ℕ) (b : B)
      → a < flash_size
      → x < flash_size
      → (x / page_size == a / page_size) ≡ false
      → byte x (program boot a b) ≡ byte x b
  unfolding program
  byte-program_elsewhere a x b h k other = ground (
    arith,
    laws.status_byte (boot.status b) x (boot.page_write a (boot.page_erase a (boot.cli b))),
    laws.write_even a x (boot.page_erase a (boot.cli b)),
    laws.write_odd a x (boot.page_erase a (boot.cli b)),
    laws.erase_byte a x (boot.cli b),
    laws.cli_byte x b,
  )

  pub end_write-IsProtected : (f : Flash B) → IsProtected f → IsProtected (end_write boot f).0
  unfolding end_write
  end_write-IsProtected f p = elim (Bool-cases (f.cur_page_addr == 0 || f.flash_locked)) [
    | inl refused ↦ rw refused p
    | inr goes ↦ rw goes (record {
      in_front = omega arith;
      untouched = λ x low high.
          byte-program_elsewhere f.cur_page_addr x f.hardware (omega (arith, p.in_front)) high
            (ground (arith, p.in_front))
          ∙ p.untouched x low high;
    })
  ]
