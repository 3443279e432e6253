-- ===== src/Gpt/Running.antt =====
-- The stages of prepare_partitions of gpt-utils.cpp, wherever they stop: one table is good.
use device_blackshark_penros.Base.{List, arith, inl, inr, refl, some, ℕ, ◌<◌, ◌∙◌, ◌≡◌}
use device_blackshark_penros.Gpt.Bytes.{u32_mod}
use device_blackshark_penros.Gpt.Device.{Device, Files, System}
use device_blackshark_penros.Gpt.Effects.{IsWhole, Leaves, Leaves-and_then, Leaves-weaken, Quiet}
use device_blackshark_penros.Gpt.Files.{gpt_utils_is_ufs_device}
use device_blackshark_penros.Gpt.Guarding.{
  IsBootable, finalize_after_chain, main_after_chain, set_primary-IsBootable,
  set_secondary-IsBootable,
}
use device_blackshark_penros.Gpt.Header.{
  GptState, gpt_bad_crc, gpt_bad_signature, gpt_ok, gpt_set_state, header_state, marked,
  primary_gpt, secondary_gpt,
}
use device_blackshark_penros.Gpt.Layout.{Fits, IsLayout, Layout, header_of}
use device_blackshark_penros.Gpt.Marking.{mark_bad, mark_bad-Marks, mark_ok, mark_ok-Marks}
use device_blackshark_penros.Gpt.Quiet.{
  Fits-Quiet, header_state-Quiet, keeps_first, switch_xbl-Leaves,
}
use device_blackshark_penros.Gpt.Remarking.{Remarked}
use device_blackshark_penros.Gpt.Sealing.{signed-same, zeroed-differs}
use device_blackshark_penros.Gpt.Stopping.{Chains, KeepsFirst, gpt2_set_boot_chain-Leaves}
use device_blackshark_penros.Gpt.Table.{backup_boot, gpt2_set_boot_chain, normal_boot}
use device_blackshark_penros.Gpt.Update.{
  BootUpdateStage, internal_stage, run_stage, switch_xbl, update_backup, update_finalize,
  update_main,
}

module _ (crc32 : List ℕ → ℕ) (bounded : (bytes : List ℕ) → crc32 bytes < u32_mod) (files : Files)
    (sys : System) (l : Layout) (layout : IsLayout l) (whole : IsWhole sys l.blk_size) where
  abbrev Bootable : Device → Type 0
  Bootable = IsBootable crc32 l

  run_main :
      (d : Device)
      → Fits crc32 l d
      → header_state crc32 (header_of l d primary_gpt) ≡ gpt_ok
      → header_state crc32 (header_of l d secondary_gpt) ≡ gpt_ok
      → Leaves (λ b d'. Bootable d') Bootable (run_stage crc32 files sys update_main d)
  unfolding run_stage
  run_main d fits p s =
      Leaves-and_then (λ a d'. Quiet d d') (λ b d'. Bootable d') Bootable
        (switch_xbl files backup_boot d) _
        (Leaves-weaken (λ a d'. Quiet d d') (λ a d'. Quiet d d') (Quiet d) Bootable _ (λ a d' q. q)
          (λ d' q. inl (header_state-Quiet crc32 bounded sys l layout whole d d' primary_gpt q ∙ p))
          (switch_xbl-Leaves files backup_boot d))
        (λ a d1 q.
          let fits1 = Fits-Quiet crc32 bounded sys l layout whole d d1 q fits in
          let p1 = header_state-Quiet crc32 bounded sys l layout whole d d1 primary_gpt q ∙ p in
          Leaves-and_then (Chains crc32 bounded sys l layout whole d1) (λ b d'. Bootable d')
            Bootable (gpt2_set_boot_chain crc32 sys (gpt_utils_is_ufs_device files) backup_boot d1)
            _
            (Leaves-weaken (Chains crc32 bounded sys l layout whole d1)
              (Chains crc32 bounded sys l layout whole d1)
              (KeepsFirst crc32 bounded sys l layout whole d1) Bootable _ (λ b d' c. c)
              (λ d' k. inl (keeps_first crc32 bounded sys l layout whole d1 d' fits1 k ∙ p1))
              (gpt2_set_boot_chain-Leaves crc32 bounded sys l layout whole
                (gpt_utils_is_ufs_device files) backup_boot d1 fits1))
            (λ not_found d2 c.
              main_after_chain crc32 bounded files sys l layout whole not_found d1 d2 fits1 p1
                (header_state-Quiet crc32 bounded sys l layout whole d d1 secondary_gpt q ∙ s) c))

  run_backup :
      (d : Device)
      → Fits crc32 l d
      → header_state crc32 (header_of l d secondary_gpt) ≡ gpt_ok
      → Leaves (λ b d'. Bootable d') Bootable (run_stage crc32 files sys update_backup d)
  unfolding run_stage
  run_backup d fits s =
      Leaves-and_then (λ a d'. Quiet d d') (λ b d'. Bootable d') Bootable
        (switch_xbl files normal_boot d) _
        (Leaves-weaken (λ a d'. Quiet d d') (λ a d'. Quiet d d') (Quiet d) Bootable _ (λ a d' q. q)
          (λ d' q.
            inr (header_state-Quiet crc32 bounded sys l layout whole d d' secondary_gpt q ∙ s))
          (switch_xbl-Leaves files normal_boot d))
        (λ a d1 q.
          Leaves-and_then (λ b d'. Remarked crc32 l primary_gpt gpt_ok d1 d') (λ b d'. Bootable d')
            Bootable (gpt_set_state crc32 sys primary_gpt gpt_ok d1) _
            (set_primary-IsBootable crc32 bounded files sys l layout whole gpt_ok mark_ok d1
              mark_ok-Marks (λ h. rw (signed-same h) refl) (λ h d'. unfold marked in refl)
              (Fits-Quiet crc32 bounded sys l layout whole d d1 q fits)
              (header_state-Quiet crc32 bounded sys l layout whole d d1 secondary_gpt q ∙ s))
            (λ b d2 r.
              Leaves-and_then (λ b' d'. Remarked crc32 l secondary_gpt gpt_bad_signature d2 d')
                (λ b d'. Bootable d') Bootable
                (gpt_set_state crc32 sys secondary_gpt gpt_bad_signature d2) _
                (set_secondary-IsBootable crc32 bounded files sys l layout whole gpt_bad_signature
                  mark_bad d2 mark_bad-Marks (λ h. rw (zeroed-differs h) refl)
                  (λ h d'. unfold marked in refl) r.fits r.own_state)
                (λ b' d3 r'. inl (r'.other_state ∙ r.own_state))))

  run_finalize :
      (d : Device)
      → Fits crc32 l d
      → header_state crc32 (header_of l d primary_gpt) ≡ gpt_ok
      → Leaves (λ b d'. Bootable d') Bootable (run_stage crc32 files sys update_finalize d)
  unfolding run_stage
  run_finalize d fits p =
      Leaves-and_then (Chains crc32 bounded sys l layout whole d) (λ b d'. Bootable d') Bootable
        (gpt2_set_boot_chain crc32 sys (gpt_utils_is_ufs_device files) normal_boot d) _
        (Leaves-weaken (Chains crc32 bounded sys l layout whole d)
          (Chains crc32 bounded sys l layout whole d)
          (KeepsFirst crc32 bounded sys l layout whole d) Bootable _ (λ b d' c. c)
          (λ d' k. inl (keeps_first crc32 bounded sys l layout whole d d' fits k ∙ p))
          (gpt2_set_boot_chain-Leaves crc32 bounded sys l layout whole
            (gpt_utils_is_ufs_device files) normal_boot d fits))
        (λ not_found d1 c.
          let (fits1, p1) =
            finalize_after_chain crc32 bounded files sys l layout whole not_found d d1 fits p c in
          Leaves-and_then (λ b d'. Remarked crc32 l secondary_gpt gpt_ok d1 d')
            (λ b d'. Bootable d') Bootable (gpt_set_state crc32 sys secondary_gpt gpt_ok d1) _
            (set_secondary-IsBootable crc32 bounded files sys l layout whole gpt_ok mark_ok d1
              mark_ok-Marks (λ h. rw (signed-same h) refl) (λ h d'. unfold marked in refl) fits1 p1)
            (λ b d2 r. inl (r.other_state ∙ p1)))

  -- The stage that the states call for, and what they say of the tables.
  pub runs_called :
      (s t : GptState) (stage : BootUpdateStage) (d : Device)
      → Fits crc32 l d
      → header_state crc32 (header_of l d primary_gpt) ≡ s
      → header_state crc32 (header_of l d secondary_gpt) ≡ t
      → internal_stage s t ≡ some stage
      → Leaves (λ b d'. Bootable d') Bootable (run_stage crc32 files sys stage d)
  runs_called gpt_ok gpt_ok update_main d fits p s e = run_main d fits p s
  runs_called gpt_bad_signature gpt_ok update_backup d fits p s e = run_backup d fits s
  runs_called gpt_ok gpt_bad_signature update_finalize d fits p s e = run_finalize d fits p
  runs_called gpt_ok gpt_ok update_backup d fits p s e = absurd (ground arith)
  runs_called gpt_ok gpt_ok update_finalize d fits p s e = absurd (ground arith)
  runs_called gpt_bad_signature gpt_ok update_main d fits p s e = absurd (ground arith)
  runs_called gpt_bad_signature gpt_ok update_finalize d fits p s e = absurd (ground arith)
  runs_called gpt_ok gpt_bad_signature update_main d fits p s e = absurd (ground arith)
  runs_called gpt_ok gpt_bad_signature update_backup d fits p s e = absurd (ground arith)
  runs_called gpt_bad_signature gpt_bad_signature stage d fits p s e = absurd (ground arith)
  runs_called gpt_bad_crc t stage d fits p s e = absurd (ground arith)
  runs_called gpt_ok gpt_bad_crc stage d fits p s e = absurd (ground arith)
  runs_called gpt_bad_signature gpt_bad_crc stage d fits p s e = absurd (ground arith)
