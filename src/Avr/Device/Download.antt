-- ===== src/Avr/Device/Download.antt =====
-- A whole program sent over the bus to the AVR, against its description as an image of flash.
use mathlib.Core.List.{flatten}
use cannuccia.Common.{
  ℕ, ◌+◌, ◌*◌, ◌/◌, ◌%◌, ◌<◌, ◌≡◌, refl, ap, ◌∙◌, inl, inr, false, List, [], ◌∷◌, length, get_or,
  ◌==◌, if◌then◌else◌, arith, Bool-cases, IsBytes, All,
}
use cannuccia.Pump.Handlers.{unlocked, Pump}
use cannuccia.Avr.Flash.{Boot, Flash, page_size, flash_size}
use cannuccia.Avr.Flash.Hardware.{SelfProgramming}
use cannuccia.Avr.Flash.Pages.{application_pages}
use cannuccia.Avr.Flash.Commit.{commit_programs, flash_locked-commit}
use cannuccia.Avr.Can.Link.{Spi}
use cannuccia.Avr.Device.{Device}
use cannuccia.Avr.Device.Session.{program_one, program_one_lem}

-- A page to program: its number, and its bytes as they are split into WRITEs.
abbrev pub Job : Type 0
Job = ℕ × List (List ℕ)

-- The page is not the one at address 0, it is in front of the bootloader and not the last such
-- page, and the bytes fill it.
pub record IsJob (job : Job) : Type 0 where
  pub not_first : 0 < job.0
  pub in_front : job.0 + 1 < application_pages
  pub whole : length (flatten job.1) ≡ page_size
  pub are_bytes : IsBytes (flatten job.1)

-- The description: the flash as a function from addresses to bytes.
abbrev pub write_page : ℕ → List ℕ → (ℕ → ℕ) → ℕ → ℕ
write_page page bytes image x =
    if x / page_size == page then get_or bytes (x % page_size) 0 else image x

unfoldable pub write_pages : List Job → (ℕ → ℕ) → ℕ → ℕ
write_pages [] image = image
write_pages (job ∷ jobs) image = write_pages jobs (write_page job.0 (flatten job.1) image)

module _ {B S : Type 0} (self : Boot B) (byte word : ℕ → B → ℕ)
    (laws : SelfProgramming self byte word) (spi : Spi S) (update : ℕ → ℕ → ℕ) (ctz : ℕ → ℕ)
    (uninitialised beyond : List ℕ) (dev_id : ℕ) where
  -- The pump in UNLOCKED with a whole buffer, over an unlocked flash with an erased buffer.
  pub record IsReady (s : Pump (Device B S)) : Type 0 where
    pub open_state : s.state ≡ unlocked
    pub open_flash : s.device.flash.flash_locked ≡ false
    pub clear : (i : ℕ) → i < 64 → word i s.device.flash.hardware ≡ 0xFFFF
    pub whole_buffer : length s.sel_page.writes ≡ page_size

  abbrev image_of : Pump (Device B S) → ℕ → ℕ
  image_of s x = byte x s.device.flash.hardware

  -- The messages for one page after the other.
  unfoldable pub download : List Job → Pump (Device B S) → Pump (Device B S)
  download [] s = s
  download ((k, payloads) ∷ jobs) s =
      download jobs
        (program_one self spi update ctz uninitialised beyond dev_id (k * page_size) payloads s)

  program_one-IsReady :
      (k : ℕ) (payloads : List (List ℕ)) (s : Pump (Device B S))
      → IsJob (k, payloads)
      → IsReady s
      → let after =
          program_one self spi update ctz uninitialised beyond dev_id (k * page_size) payloads s in
        IsReady after
        × ((x : ℕ)
            → x < flash_size
            → image_of after x ≡ write_page k (flatten payloads) (image_of s) x)
  program_one-IsReady k payloads s job ready =
      let (flash, state, writes) =
        program_one_lem self spi update ctz uninitialised beyond dev_id k payloads s job.in_front
          ready.open_state ready.whole_buffer job.whole in
      let page = k * page_size in
      let aligned : page % page_size ≡ 0 = omega arith in
      let inside : page < flash_size = omega (arith, job.in_front) in
      let not_zero : 0 < page = omega (arith, job.not_first) in
      let bytes = flatten payloads in
      let (succeeds, programmed) =
        commit_programs self byte word laws page aligned inside not_zero bytes job.whole
          job.are_bytes s.device.flash ready.open_flash ready.clear in
      let hardware = ap (λ (f : Flash B). f.hardware) flash in
      (
        record {
          open_state = state;
          open_flash =
              ap (λ (f : Flash B). f.flash_locked) flash
              ∙ flash_locked-commit self byte word laws page aligned inside not_zero bytes job.whole
                  job.are_bytes s.device.flash ready.open_flash;
          clear = λ i h. ap (word i) hardware ∙ programmed.erased i h;
          whole_buffer = ap length writes ∙ job.whole;
        },
        λ x h. ap (byte x) hardware ∙ elim (Bool-cases (x / page_size == k)) [
          | inl here ↦ rw here (programmed.written x h (ground arith))
          | inr elsewhere ↦ rw elsewhere (programmed.elsewhere x h (ground arith))
        ],
      )

  -- The descriptions of two images that agree at an address agree there.
  write_pages_agree :
      (jobs : List Job) (image image' : ℕ → ℕ) (x : ℕ)
      → image x ≡ image' x
      → write_pages jobs image x ≡ write_pages jobs image' x
  unfolding write_pages
  write_pages_agree [] image image' x e = e
  write_pages_agree (job ∷ jobs) image image' x e =
      write_pages_agree jobs (write_page job.0 (flatten job.1) image)
        (write_page job.0 (flatten job.1) image') x (rw e refl)

  -- From an unlocked bootloader that is ready, the messages for any list of pages, each a job of
  -- its own as IsJob says, handled one after another, leave the flash as `write_pages` describes:
  -- the bytes of each page where it was sent, the last ones where a page was sent twice, and
  -- everything else as it was. The bootloader is ready for more.
  pub download-write_pages :
      (jobs : List Job) (s : Pump (Device B S)) (x : ℕ)
      → All IsJob jobs
      → IsReady s
      → x < flash_size
      → (image_of (download jobs s) x ≡ write_pages jobs (image_of s) x) × IsReady (download jobs s)
  unfolding download write_pages
  download-write_pages [] s x all ready h = (refl, ready)
  download-write_pages ((k, payloads) ∷ jobs) s x (job, all) ready h =
      let after =
        program_one self spi update ctz uninitialised beyond dev_id (k * page_size) payloads s in
      let (next, image) = program_one-IsReady k payloads s job ready in
      let (rest, still) = download-write_pages jobs after x all next h in
      (
        rest
            ∙ write_pages_agree jobs (image_of after) (write_page k (flatten payloads) (image_of s))
                x (image x h),
        still,
      )
