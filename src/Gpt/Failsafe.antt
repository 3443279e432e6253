-- ===== src/Gpt/Failsafe.antt =====
-- The safe update of gpt-utils.cpp, wherever it stops: one of the two tables is always good.
use device_blackshark_penros.Base.{
  ==_iff, Bool-cases, List, Option, arith, inl, inr, none, refl, some, sym, ℕ, ◌-◌, ◌<◌, ◌==◌, ◌∙◌,
  ◌≡◌,
}
use device_blackshark_penros.Gpt.Bytes.{u32_mod}
use device_blackshark_penros.Gpt.Device.{
  Device, FilePath, Files, Io, System, and_then, found, next_turn, require, ◌>>=◌,
}
use device_blackshark_penros.Gpt.Effects.{IsWhole, Leaves, Leaves-and_then, Leaves-weaken, Quiet}
use device_blackshark_penros.Gpt.Guarding.{IsBootable}
use device_blackshark_penros.Gpt.Header.{
  GptInstance, GptState, gpt_get_state, header_state, primary_gpt, secondary_gpt,
}
use device_blackshark_penros.Gpt.Layout.{Fits, IsLayout, Layout, header_of}
use device_blackshark_penros.Gpt.Quiet.{Fits-Quiet, header_state-Quiet, require-Leaves}
use device_blackshark_penros.Gpt.Running.{runs_called}
use device_blackshark_penros.Gpt.Stopping.{gpt_get_state-Leaves}
use device_blackshark_penros.Gpt.Update.{
  BootUpdateStage, enter_stage, internal_stage, prepare_partitions, stage_number,
}

stage_of-number : (a b : BootUpdateStage) → stage_number a ≡ stage_number b → a ≡ b
stage_of-number a b e = ground arith

module _ (crc32 : List ℕ → ℕ) (bounded : (bytes : List ℕ) → crc32 bytes < u32_mod) (files : Files)
    (sys : System) (l : Layout) (layout : IsLayout l) (whole : IsWhole sys l.blk_size) where
  abbrev Bootable : Device → Type 0
  Bootable = IsBootable crc32 l

  enters-IsBootable :
      (s t : GptState) (stage internal : BootUpdateStage) (d : Device)
      → Fits crc32 l d
      → header_state crc32 (header_of l d primary_gpt) ≡ s
      → header_state crc32 (header_of l d secondary_gpt) ≡ t
      → internal_stage s t ≡ some internal
      → Bootable d
      → Leaves (λ b d'. Bootable d') Bootable (enter_stage crc32 files sys stage internal d)
  unfolding enter_stage
  enters-IsBootable s t stage internal d fits p q e good =
      elim (Bool-cases (stage_number stage == stage_number internal - 1)) [
        | inl set ↦ rw set good
        | inr unset ↦ rw unset (elim (Bool-cases (stage_number stage == stage_number internal)) [
          | inr differs ↦ rw differs good
          | inl called ↦
              rw (called, stage_of-number stage internal ((==_iff _ _).0 called))
                (runs_called crc32 bounded files sys l layout whole s t internal d fits p q e)
        ])
      ]

  Bootable-Quiet : (d d' : Device) → Quiet d d' → Bootable d → Bootable d'
  Bootable-Quiet d d' q (inl p) =
      inl (header_state-Quiet crc32 bounded sys l layout whole d d' primary_gpt q ∙ p)
  Bootable-Quiet d d' q (inr p) =
      inr (header_state-Quiet crc32 bounded sys l layout whole d d' secondary_gpt q ∙ p)

  chooses-IsBootable :
      (stage : BootUpdateStage) (s t : GptState) (called : Option BootUpdateStage) (d : Device)
      → internal_stage s t ≡ called
      → Fits crc32 l d
      → header_state crc32 (header_of l d primary_gpt) ≡ s
      → header_state crc32 (header_of l d secondary_gpt) ≡ t
      → Bootable d
      → Leaves
          (λ b d'. Bootable d')
          Bootable
          (and_then (found called d) (enter_stage crc32 files sys stage))
  chooses-IsBootable stage s t none d e fits p q good = good
  chooses-IsBootable stage s t (some internal) d e fits p q good =
      enters-IsBootable s t stage internal d fits p q e good

  -- A read of a header, where the device can be booted from.
  reads-IsBootable :
      (gpt : GptInstance) (d : Device)
      → Fits crc32 l d
      → Bootable d
      → Leaves
          (λ s d'. (s ≡ header_state crc32 (header_of l d gpt)) × Quiet d d')
          Bootable
          (gpt_get_state crc32 sys gpt d)
  reads-IsBootable gpt d fits good =
      Leaves-weaken (λ s d'. (s ≡ header_state crc32 (header_of l d gpt)) × (d' ≡ next_turn d))
        (λ s d'. (s ≡ header_state crc32 (header_of l d gpt)) × Quiet d d') (Quiet d) Bootable _
        (λ s d' (e, at). (e, rw at (refl, refl))) (λ d' q. Bootable-Quiet d d' q good)
        (gpt_get_state-Leaves crc32 bounded sys l layout whole gpt d fits)

  -- Both states are read, and the stage entered.
  abbrev reads_states : BootUpdateStage → Io (Unit {0})
  reads_states stage = do
    gpt_prim ← gpt_get_state crc32 sys primary_gpt
    gpt_second ← gpt_get_state crc32 sys secondary_gpt
    internal ← found (internal_stage gpt_prim gpt_second)
    enter_stage crc32 files sys stage internal

  states_read :
      (stage : BootUpdateStage) (d : Device)
      → Fits crc32 l d
      → Bootable d
      → Leaves (λ b d'. Bootable d') Bootable (reads_states stage d)
  states_read stage d fits good =
      Leaves-and_then (λ s d'. (s ≡ header_state crc32 (header_of l d primary_gpt)) × Quiet d d')
        (λ b d'. Bootable d') Bootable (gpt_get_state crc32 sys primary_gpt d) _
        (reads-IsBootable primary_gpt d fits good)
        (λ s d1 (e, q).
          let fits1 = Fits-Quiet crc32 bounded sys l layout whole d d1 q fits in
          let good1 = Bootable-Quiet d d1 q good in
          Leaves-and_then
            (λ t d'. (t ≡ header_state crc32 (header_of l d1 secondary_gpt)) × Quiet d1 d')
            (λ b d'. Bootable d') Bootable (gpt_get_state crc32 sys secondary_gpt d1) _
            (reads-IsBootable secondary_gpt d1 fits1 good1)
            (λ t d2 (e', q').
              chooses-IsBootable stage s t (internal_stage s t) d2 refl
                (Fits-Quiet crc32 bounded sys l layout whole d1 d2 q' fits1)
                (header_state-Quiet crc32 bounded sys l layout whole d1 d2 primary_gpt q'
                  ∙ header_state-Quiet crc32 bounded sys l layout whole d d1 primary_gpt q
                  ∙ sym e)
                (header_state-Quiet crc32 bounded sys l layout whole d1 d2 secondary_gpt q'
                  ∙ sym e')
                (Bootable-Quiet d1 d2 q' good1)))

  -- A table is good where gpt_get_state says so: its header has the signature and a right CRC. On a
  -- device with two tables of which one is good, whatever calls fail and wherever the update
  -- stops, one of the tables is good, where a transfer that succeeds has moved all of its bytes.
  pub prepare_partitions-IsBootable :
      (stage : BootUpdateStage) (path : FilePath) (d : Device)
      → Fits crc32 l d
      → IsBootable crc32 l d
      → Leaves
          (λ b d'. IsBootable crc32 l d')
          (IsBootable crc32 l)
          (prepare_partitions crc32 files sys stage path d)
  unfolding prepare_partitions
  prepare_partitions-IsBootable stage path d fits good =
      Leaves-and_then (λ a d'. Quiet d d') (λ b d'. Bootable d') Bootable
        (require (files.opens path) d) _
        (Leaves-weaken (λ a d'. Quiet d d') (λ a d'. Quiet d d') (Quiet d) Bootable _ (λ a d' q. q)
          (λ d' q. Bootable-Quiet d d' q good) (require-Leaves (files.opens path) d))
        (λ a d0 q0.
          states_read stage d0 (Fits-Quiet crc32 bounded sys l layout whole d d0 q0 fits)
            (Bootable-Quiet d d0 q0 good))
