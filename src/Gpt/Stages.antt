-- ===== src/Gpt/Stages.antt =====
-- The stages of prepare_partitions of gpt-utils.cpp.
use device_blackshark_penros.Base.{List, false, refl, some, true, ℕ, ◌+◌, ◌<◌, ◌∙◌, ◌≡◌}
use device_blackshark_penros.Gpt.Bytes.{Buf, overlay-start, u32_mod}
use device_blackshark_penros.Gpt.Chaining.{gpt2_set_boot_chain-writes}
use device_blackshark_penros.Gpt.Device.{Device, FilePath, Files, System, done, next_turn}
use device_blackshark_penros.Gpt.Entering.{
  Stands-switched, marked_bad, marked_ok, prepare_partitions-runs, switched_device,
}
use device_blackshark_penros.Gpt.Files.{gpt_utils_is_ufs_device}
use device_blackshark_penros.Gpt.Header.{gpt_bad_signature, gpt_ok, primary_gpt, secondary_gpt}
use device_blackshark_penros.Gpt.Layout.{IsLayout, Layout, array_of, first_entries}
use device_blackshark_penros.Gpt.Marking.{mark_bad, mark_ok, remarked, sets_bad, sets_ok}
use device_blackshark_penros.Gpt.Reliable.{IsReliable}
use device_blackshark_penros.Gpt.Relinking.{chained, chained-Chained}
use device_blackshark_penros.Gpt.Staging.{
  CanSwitch, Stands, Stands-Chained, Stands-kept_lun, Stands-primary, Stands-secondary, lun_after,
  switch_xbl-eq,
}
use device_blackshark_penros.Gpt.Table.{
  backup_boot, chain_entries, gpt_boot_chain_swap, normal_boot,
}
use device_blackshark_penros.Gpt.Update.{
  corrupt_primary, prepare_partitions, run_stage, update_backup, update_finalize, update_main,
}

module _ (crc32 : List ℕ → ℕ) (bounded : (bytes : List ℕ) → crc32 bytes < u32_mod) (files : Files)
    (can : CanSwitch files) (sys : System) (l : Layout) (layout : IsLayout l)
    (reliable : IsReliable sys l.blk_size) where
  -- UPDATE_MAIN: the second table is given the swapped entries, and the first is corrupted.
  pub update_main_lem :
      (path : FilePath) (first second swapped : Buf) (lun : ℕ) (d : Device)
      → files.opens path ≡ true
      → Stands crc32 l gpt_ok gpt_ok first second lun d
      → gpt_boot_chain_swap (gpt_utils_is_ufs_device files) l.array_size l.entry_size (array_of l d)
        ≡ some (false, swapped)
      → (d' : Device) × (prepare_partitions crc32 files sys update_main path d ≡ (done tt, d'))
        × Stands crc32 l gpt_bad_signature gpt_ok first swapped (lun_after files backup_boot lun) d'
  unfolding run_stage corrupt_primary chain_entries
  update_main_lem path first second swapped lun d opens stands swaps =
      let d3 = switched_device crc32 bounded files can sys l layout reliable backup_boot d in
      let d4 = chained crc32 sys l swapped d3 in
      let stands3 =
        Stands-switched crc32 bounded files can sys l layout reliable backup_boot gpt_ok gpt_ok
          first second lun d stands in
      let stands4 =
        Stands-Chained crc32 l layout gpt_ok gpt_ok first second swapped
          (lun_after files backup_boot lun) d3 d4 (λ e. cc) stands3
          (chained-Chained crc32 bounded sys l layout swapped d3 stands3.fits) in
      let d5 = remarked crc32 sys l mark_bad primary_gpt d4 in
      (
        d5,
        prepare_partitions-runs crc32 bounded files can sys l layout reliable update_main path
              gpt_ok gpt_ok first second lun d opens stands refl
            ∙ rw
                (
                  switch_xbl-eq files backup_boot (next_turn (next_turn d)) can,
                  gpt2_set_boot_chain-writes crc32 bounded sys l layout reliable
                      (gpt_utils_is_ufs_device files) backup_boot swapped d3 stands3.fits
                      (rw swaps refl),
                  sets_bad crc32 bounded sys l layout reliable primary_gpt d4 stands4.fits.whole,
                )
                refl,
        Stands-primary crc32 l layout gpt_ok gpt_ok gpt_bad_signature first swapped
            (lun_after files backup_boot lun) d4 d5 stands4
            (marked_bad crc32 bounded files can sys l layout reliable primary_gpt d4 stands4.fits),
      )

  -- UPDATE_BACKUP: the first table is mended, and the second corrupted.
  pub update_backup_lem :
      (path : FilePath) (first second : Buf) (lun : ℕ) (d : Device)
      → files.opens path ≡ true
      → Stands crc32 l gpt_bad_signature gpt_ok first second lun d
      → (d' : Device) × (prepare_partitions crc32 files sys update_backup path d ≡ (done tt, d'))
        × Stands crc32 l gpt_ok gpt_bad_signature first second (lun_after files normal_boot lun) d'
  unfolding run_stage
  update_backup_lem path first second lun d opens stands =
      let d3 = switched_device crc32 bounded files can sys l layout reliable normal_boot d in
      let lun' = lun_after files normal_boot lun in
      let stands3 =
        Stands-switched crc32 bounded files can sys l layout reliable normal_boot gpt_bad_signature
          gpt_ok first second lun d stands in
      let d4 = remarked crc32 sys l mark_ok primary_gpt d3 in
      let stands4 =
        Stands-primary crc32 l layout gpt_bad_signature gpt_ok gpt_ok first second lun' d3 d4
          stands3
          (marked_ok crc32 bounded files can sys l layout reliable primary_gpt d3 stands3.fits) in
      let d5 = remarked crc32 sys l mark_bad secondary_gpt d4 in
      (
        d5,
        prepare_partitions-runs crc32 bounded files can sys l layout reliable update_backup path
              gpt_bad_signature gpt_ok first second lun d opens stands refl
            ∙ rw
                (
                  switch_xbl-eq files normal_boot (next_turn (next_turn d)) can,
                  sets_ok crc32 bounded sys l layout reliable primary_gpt d3 stands3.fits.whole,
                  sets_bad crc32 bounded sys l layout reliable secondary_gpt d4 stands4.fits.whole,
                )
                refl,
        Stands-secondary crc32 l layout gpt_ok gpt_ok gpt_bad_signature first second lun' d4 d5
            stands4
            (marked_bad crc32 bounded files can sys l layout reliable secondary_gpt d4
              stands4.fits),
      )

  -- UPDATE_FINALIZE: the second table is given the first entries again, and mended.
  pub update_finalize_lem :
      (path : FilePath) (first second : Buf) (lun : ℕ) (d : Device)
      → files.opens path ≡ true
      → Stands crc32 l gpt_ok gpt_bad_signature first second lun d
      → (d' : Device) × (prepare_partitions crc32 files sys update_finalize path d ≡ (done tt, d'))
        × Stands crc32 l gpt_ok gpt_ok first first lun d'
  unfolding run_stage chain_entries
  update_finalize_lem path first second lun d opens stands =
      let d2 = next_turn (next_turn d) in
      let stands2 =
        Stands-kept_lun crc32 l layout gpt_ok gpt_bad_signature first second lun d (d.turn + 1 + 1)
          stands in
      let entries = array_of l d2 in
      let d3 = chained crc32 sys l entries d2 in
      let stands3 =
        Stands-Chained crc32 l layout gpt_ok gpt_bad_signature first second entries lun d2 d3
          (λ e. cc) stands2 (chained-Chained crc32 bounded sys l layout entries d2 stands2.fits) in
      let d4 = remarked crc32 sys l mark_ok secondary_gpt d3 in
      let stands4 =
        Stands-secondary crc32 l layout gpt_ok gpt_bad_signature gpt_ok first entries lun d3 d4
          stands3
          (marked_ok crc32 bounded files can sys l layout reliable secondary_gpt d3 stands3.fits) in
      (
        d4,
        prepare_partitions-runs crc32 bounded files can sys l layout reliable update_finalize path
              gpt_ok gpt_bad_signature first second lun d opens stands refl
            ∙ rw
                (
                  gpt2_set_boot_chain-writes crc32 bounded sys l layout reliable
                      (gpt_utils_is_ufs_device files) normal_boot entries d2 stands2.fits refl,
                  sets_ok crc32 bounded sys l layout reliable secondary_gpt d3 stands3.fits.whole,
                )
                refl,
        record {
          fits = stands4.fits;
          first_is = stands4.first_is;
          second_is = stands4.second_is;
          first_holds = stands4.first_holds;
          second_holds = λ i lt.
              stands4.second_holds i lt
              ∙ overlay-start (λ j. 0) (first_entries l d2) l.array_size i lt
              ∙ stands.first_holds i lt;
          lun_is = stands4.lun_is;
        },
      )

  -- A table is good where gpt_get_state says so: its header has the signature and a right CRC.
  -- On a device with two good tables that does what it is asked, whose XBL can be switched where
  -- it has a backup, and in whose first entries the swap finds a backup: UPDATE_MAIN succeeds,
  -- corrupts the first table's signature and gives the second the swapped entries; then
  -- UPDATE_BACKUP succeeds, mends the first table and corrupts the second's signature; then
  -- UPDATE_FINALIZE succeeds, both tables are good, and both hold the first entries as they were.
  -- The boot LUN is the backup's after the first stage and the normal one after the others, where
  -- XBL is switched.
  pub three_stages :
      (path : FilePath) (first second swapped : Buf) (lun : ℕ) (d : Device)
      → files.opens path ≡ true
      → Stands crc32 l gpt_ok gpt_ok first second lun d
      → gpt_boot_chain_swap (gpt_utils_is_ufs_device files) l.array_size l.entry_size (array_of l d)
        ≡ some (false, swapped)
      → (main : Device) × (backup : Device) × (final : Device) × (prepare_partitions crc32 files sys
            update_main path d
          ≡ (done tt, main))
        × Stands crc32 l gpt_bad_signature gpt_ok first swapped
            (lun_after files backup_boot lun)
            main
        × (prepare_partitions crc32 files sys update_backup path main ≡ (done tt, backup))
        × Stands crc32 l gpt_ok gpt_bad_signature first swapped
            (lun_after files normal_boot (lun_after files backup_boot lun))
            backup
        × (prepare_partitions crc32 files sys update_finalize path backup ≡ (done tt, final))
        × Stands crc32 l gpt_ok gpt_ok first first
            (lun_after files normal_boot (lun_after files backup_boot lun))
            final
  three_stages path first second swapped lun d opens stands swaps =
      let (main, runs_main, at_main) =
        update_main_lem path first second swapped lun d opens stands swaps in
      let (backup, runs_backup, at_backup) =
        update_backup_lem path first swapped (lun_after files backup_boot lun) main opens at_main in
      let (final, runs_final, at_final) =
        update_finalize_lem path first swapped
          (lun_after files normal_boot (lun_after files backup_boot lun)) backup opens at_backup in
      (main, backup, final, runs_main, at_main, runs_backup, at_backup, runs_final, at_final)
