-- ===== src/Gpt/Staging.antt =====
-- The three stages of the safe update of gpt-utils.cpp, one after the other.
use device_blackshark_penros.Base.{
  Bool, Bool-cases, List, arith, if◌then◌else◌, inl, inr, refl, some, sym, true, ℕ, ◌&&◌, ◌<◌, ◌∙◌,
  ◌≡◌, ◌≢◌,
}
use device_blackshark_penros.Gpt.Bytes.{Buf}
use device_blackshark_penros.Gpt.Device.{Device, FilePath, Files, done}
use device_blackshark_penros.Gpt.Files.{
  boot_lun_id, get_scsi_node_from_bootdevice, gpt_utils_is_ufs_device,
  gpt_utils_set_xbl_boot_partition, xbl_backup, xbl_primary,
}
use device_blackshark_penros.Gpt.Header.{
  GptState, gpt_bad_crc, header_state, primary_gpt, secondary_gpt,
}
use device_blackshark_penros.Gpt.Keeping.{Fits-kept}
use device_blackshark_penros.Gpt.Layout.{
  Fits, IsLayout, Layout, first_entries, header_of, second_entries,
}
use device_blackshark_penros.Gpt.Relinking.{Chained, signature_state}
use device_blackshark_penros.Gpt.Remarking.{Remarked}
use device_blackshark_penros.Gpt.Table.{BootChain, backup_boot, normal_boot}
use device_blackshark_penros.Gpt.Update.{switch_xbl, uses_xbl}

-- A device between two stages: the states of its tables, the entries of both, and the boot LUN.
pub record Stands (crc32 : List ℕ → ℕ) (l : Layout) (first_state second_state : GptState)
    (first second : Buf) (lun : ℕ) (d : Device) : Type 0 where
  pub fits : Fits crc32 l d
  pub first_is : header_state crc32 (header_of l d primary_gpt) ≡ first_state
  pub second_is : header_state crc32 (header_of l d secondary_gpt) ≡ second_state
  pub first_holds : (i : ℕ) → i < l.array_size → first_entries l d i ≡ first i
  pub second_holds : (i : ℕ) → i < l.array_size → second_entries l d i ≡ second i
  pub lun_is : d.boot_lun ≡ lun

abbrev pub xbl_of : BootChain → FilePath
xbl_of normal_boot = xbl_primary
xbl_of backup_boot = xbl_backup

-- XBL can be switched, where it is used.
pub record CanSwitch (files : Files) : Type 0 where
  pub switches :
      (chain : BootChain)
      → uses_xbl files ≡ true
      → (node : FilePath) × (get_scsi_node_from_bootdevice files (xbl_of chain) ≡ some node)
        × (files.takes_boot_lun node (boot_lun_id chain) ≡ true)

-- The boot LUN after a switch.
abbrev pub lun_after : Files → BootChain → ℕ → ℕ
lun_after files chain lun = if uses_xbl files then boot_lun_id chain else lun

-- A state that is not GPT_BAD_CRC is that of the signature.
pub signature_of :
    (crc32 : List ℕ → ℕ) (h : Buf)
    → header_state crc32 h ≢ gpt_bad_crc
    → signature_state h ≡ header_state crc32 h
unfolding header_state
signature_of crc32 h good = ground arith

&&-both : (b c a : Bool) → (a && b && c) ≡ true → (b ≡ true) × (c ≡ true)
&&-both b c a h = ground arith

module _ (files : Files) where
  switched_of :
      (chain : BootChain) (d : Device) (node : FilePath)
      → files.exists xbl_primary ≡ true
      → files.exists xbl_backup ≡ true
      → get_scsi_node_from_bootdevice files (xbl_of chain) ≡ some node
      → files.takes_boot_lun node (boot_lun_id chain) ≡ true
      → gpt_utils_set_xbl_boot_partition files chain d
        ≡ (done tt, record d { boot_lun = boot_lun_id chain })
  unfolding gpt_utils_set_xbl_boot_partition
  switched_of normal_boot d node p b at_node takes = rw (p, b, at_node, takes) refl
  switched_of backup_boot d node p b at_node takes = rw (b, p, at_node, takes) refl

  switched :
      (chain : BootChain) (d : Device) (node : FilePath)
      → uses_xbl files ≡ true
      → get_scsi_node_from_bootdevice files (xbl_of chain) ≡ some node
      → files.takes_boot_lun node (boot_lun_id chain) ≡ true
      → gpt_utils_set_xbl_boot_partition files chain d
        ≡ (done tt, record d { boot_lun = boot_lun_id chain })
  unfolding gpt_utils_set_xbl_boot_partition
  switched chain d node used at_node takes =
      let both =
        &&-both (files.exists xbl_primary) (files.exists xbl_backup) (gpt_utils_is_ufs_device files)
          used in
      switched_of chain d node both.0 both.1 at_node takes

  pub switch_xbl-eq :
      (chain : BootChain) (d : Device)
      → CanSwitch files
      → switch_xbl files chain d
        ≡ (done tt, record d { boot_lun = lun_after files chain d.boot_lun })
  unfolding switch_xbl gpt_utils_set_xbl_boot_partition
  switch_xbl-eq chain d can = elim (Bool-cases (uses_xbl files)) [
    | inr unused ↦ rw unused refl
    | inl used ↦
        let (node, at_node, takes) = can.switches chain used in
        rw used (switched chain d node used at_node takes)
  ]

module _ (crc32 : List ℕ → ℕ) (l : Layout) (layout : IsLayout l) where
  -- The turn and the boot LUN are no part of the tables.
  pub Stands-turn :
      (s t : GptState) (first second : Buf) (lun : ℕ) (d : Device) (turn lun' : ℕ)
      → Stands crc32 l s t first second lun d
      → Stands crc32 l s t first second lun' (record d { turn = turn; boot_lun = lun' })
  Stands-turn s t first second lun d turn lun' stands = record {
    fits =
        Fits-kept crc32 l layout d (record d { turn = turn; boot_lun = lun' }) stands.fits refl
          (λ i f. refl) (λ i f. refl) (λ i a b. refl) (λ i lt. refl);
    first_is = stands.first_is;
    second_is = stands.second_is;
    first_holds = stands.first_holds;
    second_holds = stands.second_holds;
    lun_is = refl;
  }

  pub Stands-kept_lun :
      (s t : GptState) (first second : Buf) (lun : ℕ) (d : Device) (turn : ℕ)
      → Stands crc32 l s t first second lun d
      → Stands crc32 l s t first second lun (record d { turn = turn })
  Stands-kept_lun s t first second lun d turn stands = record {
    fits =
        Fits-kept crc32 l layout d (record d { turn = turn }) stands.fits refl (λ i f. refl)
          (λ i f. refl) (λ i a b. refl) (λ i lt. refl);
    first_is = stands.first_is;
    second_is = stands.second_is;
    first_holds = stands.first_holds;
    second_holds = stands.second_holds;
    lun_is = stands.lun_is;
  }

  -- A marked header, and a second table that is written.
  pub Stands-primary :
      (s t u : GptState) (first second : Buf) (lun : ℕ) (d d' : Device)
      → Stands crc32 l s t first second lun d
      → Remarked crc32 l primary_gpt u d d'
      → Stands crc32 l u t first second lun d'
  Stands-primary s t u first second lun d d' stands r = record {
    fits = r.fits;
    first_is = r.own_state;
    second_is = r.other_state ∙ stands.second_is;
    first_holds = λ i lt. r.first_kept i lt ∙ stands.first_holds i lt;
    second_holds = λ i lt. r.second_kept i lt ∙ stands.second_holds i lt;
    lun_is = r.lun_kept ∙ stands.lun_is;
  }

  pub Stands-secondary :
      (s t u : GptState) (first second : Buf) (lun : ℕ) (d d' : Device)
      → Stands crc32 l s t first second lun d
      → Remarked crc32 l secondary_gpt u d d'
      → Stands crc32 l s u first second lun d'
  Stands-secondary s t u first second lun d d' stands r = record {
    fits = r.fits;
    first_is = r.other_state ∙ stands.first_is;
    second_is = r.own_state;
    first_holds = λ i lt. r.first_kept i lt ∙ stands.first_holds i lt;
    second_holds = λ i lt. r.second_kept i lt ∙ stands.second_holds i lt;
    lun_is = r.lun_kept ∙ stands.lun_is;
  }

  pub Stands-Chained :
      (s t : GptState) (first second entries : Buf) (lun : ℕ) (d d' : Device)
      → t ≢ gpt_bad_crc
      → Stands crc32 l s t first second lun d
      → Chained crc32 l entries d d'
      → Stands crc32 l s t first entries lun d'
  Stands-Chained s t first second entries lun d d' good stands c = record {
    fits = c.fits;
    first_is = c.first_state ∙ stands.first_is;
    second_is =
        c.second_state
        ∙ signature_of crc32 (header_of l d secondary_gpt)
            (λ bad. good (sym stands.second_is ∙ bad))
        ∙ stands.second_is;
    first_holds = λ i lt. c.first_kept i lt ∙ stands.first_holds i lt;
    second_holds = c.second_new;
    lun_is = c.lun_kept ∙ stands.lun_is;
  }
