-- ===== src/Gpt/Quiet.antt =====
-- What gpt-utils.cpp leaves of the tables where it only reads, or where a write stops.
use device_blackshark_penros.Base.{
  Bool, Bool-cases, List, Option, ap, arith, false, inl, inr, none, refl, some, true, ℕ, ◌+◌, ◌<◌,
  ◌∙◌, ◌≡◌,
}
use device_blackshark_penros.Gpt.Bytes.{Buf, shift, u32_mod}
use device_blackshark_penros.Gpt.Device.{
  Device, FilePath, Files, Io, Outcome, System, and_then, done, endless, failed, found, require,
}
use device_blackshark_penros.Gpt.Effects.{IsWhole, Leaves, Quiet, SameRegion, Touched}
use device_blackshark_penros.Gpt.Files.{
  boot_lun_id, get_scsi_node_from_bootdevice, gpt_utils_set_xbl_boot_partition, has_xbl_pair,
  set_boot_lun, xbl_device,
}
use device_blackshark_penros.Gpt.Header.{GptInstance, header_state, primary_gpt, secondary_gpt}
use device_blackshark_penros.Gpt.Keeping.{Fits-kept, header_state-kept}
use device_blackshark_penros.Gpt.Layout.{
  Fits, IsLayout, Layout, at_of, header_of, header_size-le, second_offset,
}
use device_blackshark_penros.Gpt.Stopping.{KeepsFirst}
use device_blackshark_penros.Gpt.Table.{BootChain}
use device_blackshark_penros.Gpt.Update.{switch_xbl, uses_xbl}

pub found-Leaves :
    {A : Type 0} (o : Option A) (d : Device) → Leaves (λ a d'. Quiet d d') (Quiet d) (found o d)
found-Leaves (some a) d = (refl, refl)
found-Leaves none d = (refl, refl)

pub require-Leaves : (b : Bool) (d : Device) → Leaves (λ a d'. Quiet d d') (Quiet d) (require b d)
require-Leaves true d = (refl, refl)
require-Leaves false d = (refl, refl)

Quiet-trans : (a b c : Device) → Quiet a b → Quiet b c → Quiet a c
Quiet-trans a b c (s, f) (t, g) = (t ∙ s, g ∙ f)

set_boot_lun-Leaves :
    (files : Files) (node : FilePath) (lun : ℕ) (d : Device)
    → Leaves (λ a d'. Quiet d d') (Quiet d) (set_boot_lun files node lun d)
set_boot_lun-Leaves files node lun d = elim (Bool-cases (files.takes_boot_lun node lun)) [
  | inl e ↦ rw e (refl, refl)
  | inr e ↦ rw e (refl, refl)
]

Leaves-after :
    {B : Type 0} (d d' : Device) (r : Outcome B × Device)
    → Quiet d d'
    → Leaves (λ b d''. Quiet d' d'') (Quiet d') r
    → Leaves (λ b d''. Quiet d d'') (Quiet d) r
Leaves-after d d' (done a, e) q h = Quiet-trans d d' e q h
Leaves-after d d' (failed, e) q h = Quiet-trans d d' e q h
Leaves-after d d' (endless, e) q h = Quiet-trans d d' e q h

Leaves-Quiet :
    {A B : Type 0} (d : Device) (r : Outcome A × Device) (f : A → Io B)
    → Leaves (λ a d'. Quiet d d') (Quiet d) r
    → ((a : A) (d' : Device) → Leaves (λ b d''. Quiet d' d'') (Quiet d') (f a d'))
    → Leaves (λ b d'. Quiet d d') (Quiet d) (and_then r f)
Leaves-Quiet d (done a, d') f q rest = Leaves-after d d' (f a d') q (rest a d')
Leaves-Quiet d (failed, d') f q rest = q
Leaves-Quiet d (endless, d') f q rest = q

-- The switch of the boot LUN leaves the tables.
pub switch_xbl-Leaves :
    (files : Files) (chain : BootChain) (d : Device)
    → Leaves (λ a d'. Quiet d d') (Quiet d) (switch_xbl files chain d)
unfolding switch_xbl gpt_utils_set_xbl_boot_partition
switch_xbl-Leaves files chain d = elim (Bool-cases (uses_xbl files)) [
  | inr e ↦ rw e (refl, refl)
  | inl e ↦ rw e (
      Leaves-Quiet d _ _ (found-Leaves (xbl_device files chain) d) (λ dev d1.
        Leaves-Quiet d1 _ _ (require-Leaves (has_xbl_pair files) d1) (λ t d2.
          Leaves-Quiet d2 _ _ (found-Leaves (get_scsi_node_from_bootdevice files dev) d2)
            (λ node d3. set_boot_lun-Leaves files node (boot_lun_id chain) d3))))
]

module _ (crc32 : List ℕ → ℕ) (bounded : (bytes : List ℕ) → crc32 bytes < u32_mod) (sys : System)
    (l : Layout) (layout : IsLayout l) (whole : IsWhole sys l.blk_size) where
  -- A device whose bytes did not change.
  pub Fits-Quiet : (d d' : Device) → Quiet d d' → Fits crc32 l d → Fits crc32 l d'
  Fits-Quiet d d' (s, b) fits =
      let same = λ (at i : ℕ). ap (λ (f : Buf). f (at + i)) b in
      Fits-kept crc32 l layout d d' fits s (λ i f. same l.blk_size i)
        (λ i f. same (second_offset l) i) (λ i a c. same l.blk_size i)
        (λ i lt. same l.first_start i)

  pub header_state-Quiet :
      (d d' : Device) (gpt : GptInstance)
      → Quiet d d'
      → header_state crc32 (header_of l d' gpt) ≡ header_state crc32 (header_of l d gpt)
  header_state-Quiet d d' gpt (s, b) =
      ap (λ (f : Buf). header_state crc32 (shift f (at_of gpt l))) b

  -- A header whose block did not change.
  state-same :
      (d d' : Device) (gpt : GptInstance)
      → Fits crc32 l d
      → SameRegion (at_of gpt l) l.blk_size d d'
      → header_state crc32 (header_of l d' gpt) ≡ header_state crc32 (header_of l d gpt)
  state-same d d' gpt fits (s, same) =
      header_state-kept crc32 l layout d d' gpt (header_size-le crc32 l d fits gpt) same

  -- What a stopped change of a header leaves: the other header.
  pub Touched-primary :
      (d d' : Device)
      → Fits crc32 l d
      → Touched l.blk_size l.blk_size d d'
      → header_state crc32 (header_of l d' secondary_gpt)
        ≡ header_state crc32 (header_of l d secondary_gpt)
  Touched-primary d d' fits t = state-same d d' secondary_gpt fits (
      t (second_offset l) l.blk_size (
        inr (
          omega (
            arith, layout.entries_after_header, layout.second_after_first,
            layout.header_after_entries,
          ))))

  pub Touched-secondary :
      (d d' : Device)
      → Fits crc32 l d
      → Touched (second_offset l) l.blk_size d d'
      → header_state crc32 (header_of l d' primary_gpt)
        ≡ header_state crc32 (header_of l d primary_gpt)
  Touched-secondary d d' fits t = state-same d d' primary_gpt fits (
      t l.blk_size l.blk_size (
        inl (
          omega (
            arith, layout.entries_after_header, layout.second_after_first,
            layout.header_after_entries,
          ))))

  pub keeps_first :
      (d d' : Device)
      → Fits crc32 l d
      → KeepsFirst crc32 bounded sys l layout whole d d'
      → header_state crc32 (header_of l d' primary_gpt)
        ≡ header_state crc32 (header_of l d primary_gpt)
  keeps_first d d' fits k = state-same d d' primary_gpt fits (
      k l.blk_size l.blk_size
        (omega (arith, layout.entries_after_header, layout.second_after_first)))
