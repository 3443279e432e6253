-- ===== src/Gpt/Entering.antt =====
-- How prepare_partitions of gpt-utils.cpp comes to the stage that the tables call for.
use device_blackshark_penros.Base.{List, ap, refl, some, true, ℕ, ◌+◌, ◌<◌, ◌∙◌, ◌≡◌}
use device_blackshark_penros.Gpt.Bytes.{Buf, u32_mod}
use device_blackshark_penros.Gpt.Device.{Device, FilePath, Files, System, next_turn}
use device_blackshark_penros.Gpt.Header.{
  GptInstance, GptState, gpt_bad_signature, gpt_ok, primary_gpt, secondary_gpt,
}
use device_blackshark_penros.Gpt.Layout.{Fits, IsLayout, Layout}
use device_blackshark_penros.Gpt.Marking.{
  gpt_get_state-eq, mark_bad, mark_bad-Marks, mark_ok, mark_ok-Marks, remarked,
}
use device_blackshark_penros.Gpt.Reliable.{IsReliable}
use device_blackshark_penros.Gpt.Remarking.{Remarked, Remarked-at}
use device_blackshark_penros.Gpt.Sealing.{signed-same, zeroed-differs}
use device_blackshark_penros.Gpt.Staging.{CanSwitch, Stands, Stands-turn, lun_after}
use device_blackshark_penros.Gpt.Table.{BootChain}
use device_blackshark_penros.Gpt.Update.{
  BootUpdateStage, enter_stage, internal_stage, prepare_partitions, run_stage, update_backup,
  update_finalize, update_main,
}

module _ (crc32 : List ℕ → ℕ) (bounded : (bytes : List ℕ) → crc32 bytes < u32_mod) (files : Files)
    (can : CanSwitch files) (sys : System) (l : Layout) (layout : IsLayout l)
    (reliable : IsReliable sys l.blk_size) where
  -- The two states are read, and choose the stage.
  prepare_partitions-enters :
      (stage internal : BootUpdateStage) (path : FilePath) (s t : GptState) (first second : Buf)
      (lun : ℕ) (d : Device)
      → files.opens path ≡ true
      → Stands crc32 l s t first second lun d
      → internal_stage s t ≡ some internal
      → prepare_partitions crc32 files sys stage path d
        ≡ enter_stage crc32 files sys stage internal (next_turn (next_turn d))
  unfolding prepare_partitions
  prepare_partitions-enters stage internal path s t first second lun d opens stands calls =
      let after =
        Stands-turn crc32 l layout s t first second lun d (d.turn + 1) d.boot_lun stands in
      rw
        (
          opens,
          gpt_get_state-eq crc32 bounded sys l layout reliable primary_gpt d stands.fits,
          gpt_get_state-eq crc32 bounded sys l layout reliable secondary_gpt (next_turn d)
              after.fits,
          stands.first_is,
          stands.second_is,
          calls,
        )
        refl

  -- The stage that the tables call for is run.
  enters-own :
      (stage : BootUpdateStage) (d : Device)
      → enter_stage crc32 files sys stage stage d ≡ run_stage crc32 files sys stage d
  unfolding enter_stage
  enters-own update_main d = refl
  enters-own update_backup d = refl
  enters-own update_finalize d = refl

  pub prepare_partitions-runs :
      (stage : BootUpdateStage) (path : FilePath) (s t : GptState) (first second : Buf) (lun : ℕ)
      (d : Device)
      → files.opens path ≡ true
      → Stands crc32 l s t first second lun d
      → internal_stage s t ≡ some stage
      → prepare_partitions crc32 files sys stage path d
        ≡ run_stage crc32 files sys stage (next_turn (next_turn d))
  prepare_partitions-runs stage path s t first second lun d opens stands calls =
      prepare_partitions-enters stage stage path s t first second lun d opens stands calls
      ∙ enters-own stage (next_turn (next_turn d))

  -- The device as a stage finds it, after the switch of XBL.
  abbrev pub switched_device : BootChain → Device → Device
  switched_device chain d = record (next_turn (next_turn d)) {
    boot_lun = lun_after files chain d.boot_lun;
  }

  pub Stands-switched :
      (chain : BootChain) (s t : GptState) (first second : Buf) (lun : ℕ) (d : Device)
      → Stands crc32 l s t first second lun d
      → Stands crc32 l s t first second (lun_after files chain lun) (switched_device chain d)
  Stands-switched chain s t first second lun d stands =
      let turned =
        Stands-turn crc32 l layout s t first second lun d (d.turn + 1 + 1)
          (lun_after files chain d.boot_lun) stands in
      record {
        fits = turned.fits;
        first_is = turned.first_is;
        second_is = turned.second_is;
        first_holds = turned.first_holds;
        second_holds = turned.second_holds;
        lun_is = ap (lun_after files chain) stands.lun_is;
      }

  pub marked_ok :
      (gpt : GptInstance) (d : Device)
      → Fits crc32 l d
      → Remarked crc32 l gpt gpt_ok d (remarked crc32 sys l mark_ok gpt d)
  marked_ok gpt d fits =
      Remarked-at crc32 bounded sys l layout gpt mark_ok gpt_ok d mark_ok-Marks
        (λ h. rw (signed-same h) refl) fits

  pub marked_bad :
      (gpt : GptInstance) (d : Device)
      → Fits crc32 l d
      → Remarked crc32 l gpt gpt_bad_signature d (remarked crc32 sys l mark_bad gpt d)
  marked_bad gpt d fits =
      Remarked-at crc32 bounded sys l layout gpt mark_bad gpt_bad_signature d mark_bad-Marks
        (λ h. rw (zeroed-differs h) refl) fits
