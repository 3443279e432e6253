-- ===== src/Gpt/Guarding.antt =====
-- gpt_set_state and corrupt_primary of gpt-utils.cpp, wherever they stop: the other table is good.
use device_blackshark_penros.Base.{
  Bool, List, arith, false, if◌then◌else◌, inl, inr, refl, true, ℕ, ◌<◌, ◌∙◌, ◌≡◌, ◌⊎◌,
}
use device_blackshark_penros.Gpt.Bytes.{Buf, u32_mod}
use device_blackshark_penros.Gpt.Device.{Device, Files, System, done}
use device_blackshark_penros.Gpt.Effects.{IsWhole, Leaves, Leaves-and_then, Leaves-weaken}
use device_blackshark_penros.Gpt.Header.{
  GptState, gpt_bad_signature, gpt_ok, gpt_set_state, gpt_signature, header_state, marked,
  primary_gpt, same_bytes, secondary_gpt, signature_size,
}
use device_blackshark_penros.Gpt.Layout.{Fits, IsLayout, Layout, header_of}
use device_blackshark_penros.Gpt.Marking.{Marks, mark_bad, mark_bad-Marks, remarked}
use device_blackshark_penros.Gpt.Quiet.{
  Fits-Quiet, Touched-primary, Touched-secondary, header_state-Quiet,
}
use device_blackshark_penros.Gpt.Relinking.{chained, chained-Chained}
use device_blackshark_penros.Gpt.Remarking.{Remarked, Remarked-at}
use device_blackshark_penros.Gpt.Sealing.{zeroed-differs}
use device_blackshark_penros.Gpt.Staging.{signature_of}
use device_blackshark_penros.Gpt.Stopping.{Chains, gpt_set_state-Leaves}
use device_blackshark_penros.Gpt.Update.{corrupt_primary}

-- To gpt_get_state one of the two tables is good: its header has the signature and a right CRC. The
-- CRC of the entries, which gpt_get_state does not look at, is left open.
abbrev pub IsBootable : (List ℕ → ℕ) → Layout → Device → Type 0
IsBootable crc32 l d =
    (header_state crc32 (header_of l d primary_gpt) ≡ gpt_ok)
    ⊎ (header_state crc32 (header_of l d secondary_gpt) ≡ gpt_ok)

module _ (crc32 : List ℕ → ℕ) (bounded : (bytes : List ℕ) → crc32 bytes < u32_mod) (files : Files)
    (sys : System) (l : Layout) (layout : IsLayout l) (whole : IsWhole sys l.blk_size) where
  abbrev Bootable : Device → Type 0
  Bootable = IsBootable crc32 l

  -- The mark of a header, where the other one is good.
  pub set_primary-IsBootable :
      (state : GptState) (mark : Buf → Buf) (d : Device)
      → Marks mark
      → ((h : Buf)
          → (if same_bytes (mark h) gpt_signature signature_size then gpt_ok else gpt_bad_signature)
            ≡ state)
      → ((h : Buf) (d' : Device) → marked state h d' ≡ (done (mark h), d'))
      → Fits crc32 l d
      → header_state crc32 (header_of l d secondary_gpt) ≡ gpt_ok
      → Leaves
          (λ b d'. Remarked crc32 l primary_gpt state d d')
          Bootable
          (gpt_set_state crc32 sys primary_gpt state d)
  set_primary-IsBootable state mark d marks signs runs fits good =
      Leaves-weaken (λ b d'. d' ≡ remarked crc32 sys l mark primary_gpt d) _ _ _ _
        (λ b d' e.
          rw e (Remarked-at crc32 bounded sys l layout primary_gpt mark state d marks signs fits))
        (λ d' t. inr (Touched-primary crc32 bounded sys l layout whole d d' fits t ∙ good))
        (gpt_set_state-Leaves crc32 bounded sys l layout whole primary_gpt state mark d fits.whole
          runs)

  pub set_secondary-IsBootable :
      (state : GptState) (mark : Buf → Buf) (d : Device)
      → Marks mark
      → ((h : Buf)
          → (if same_bytes (mark h) gpt_signature signature_size then gpt_ok else gpt_bad_signature)
            ≡ state)
      → ((h : Buf) (d' : Device) → marked state h d' ≡ (done (mark h), d'))
      → Fits crc32 l d
      → header_state crc32 (header_of l d primary_gpt) ≡ gpt_ok
      → Leaves
          (λ b d'. Remarked crc32 l secondary_gpt state d d')
          Bootable
          (gpt_set_state crc32 sys secondary_gpt state d)
  set_secondary-IsBootable state mark d marks signs runs fits good =
      Leaves-weaken (λ b d'. d' ≡ remarked crc32 sys l mark secondary_gpt d) _ _ _ _
        (λ b d' e.
          rw e (Remarked-at crc32 bounded sys l layout secondary_gpt mark state d marks signs fits))
        (λ d' t. inl (Touched-secondary crc32 bounded sys l layout whole d d' fits t ∙ good))
        (gpt_set_state-Leaves crc32 bounded sys l layout whole secondary_gpt state mark d fits.whole
          runs)

  corrupts_primary :
      (d : Device)
      → Fits crc32 l d
      → header_state crc32 (header_of l d secondary_gpt) ≡ gpt_ok
      → Leaves (λ b d'. Bootable d') Bootable (corrupt_primary crc32 files sys false d)
  unfolding corrupt_primary
  corrupts_primary d fits good =
      Leaves-and_then (λ b d'. Remarked crc32 l primary_gpt gpt_bad_signature d d')
        (λ b d'. Bootable d') Bootable (gpt_set_state crc32 sys primary_gpt gpt_bad_signature d) _
        (set_primary-IsBootable gpt_bad_signature mark_bad d mark_bad-Marks
          (λ h. rw (zeroed-differs h) refl) (λ h d'. unfold marked in refl) fits good)
        (λ b d' r. inr (r.other_state ∙ good))

  -- What follows the write of the second table.
  pub main_after_chain :
      (not_found : Bool) (d d' : Device)
      → Fits crc32 l d
      → header_state crc32 (header_of l d primary_gpt) ≡ gpt_ok
      → header_state crc32 (header_of l d secondary_gpt) ≡ gpt_ok
      → Chains crc32 bounded sys l layout whole d not_found d'
      → Leaves (λ b d''. Bootable d'') Bootable (corrupt_primary crc32 files sys not_found d')
  unfolding corrupt_primary
  main_after_chain true d d' fits p s (inl (e, q)) =
      inl (header_state-Quiet crc32 bounded sys l layout whole d d' primary_gpt q ∙ p)
  main_after_chain true d d' fits p s (inr (e, entries, r)) = absurd (ground arith)
  main_after_chain false d d' fits p s (inl (e, q)) = absurd (ground arith)
  main_after_chain false d d' fits p s (inr (e, entries, r)) =
      let c = chained-Chained crc32 bounded sys l layout entries d fits in
      let good =
        c.second_state ∙ signature_of crc32 (header_of l d secondary_gpt) (λ bad. cc) ∙ s in
      rw r (corrupts_primary (chained crc32 sys l entries d) c.fits good)

  pub finalize_after_chain :
      (not_found : Bool) (d d' : Device)
      → Fits crc32 l d
      → header_state crc32 (header_of l d primary_gpt) ≡ gpt_ok
      → Chains crc32 bounded sys l layout whole d not_found d'
      → Fits crc32 l d' × (header_state crc32 (header_of l d' primary_gpt) ≡ gpt_ok)
  finalize_after_chain not_found d d' fits p (inl (e, q)) = (
    Fits-Quiet crc32 bounded sys l layout whole d d' q fits,
    header_state-Quiet crc32 bounded sys l layout whole d d' primary_gpt q ∙ p,
  )
  finalize_after_chain not_found d d' fits p (inr (e, entries, r)) =
      let c = chained-Chained crc32 bounded sys l layout entries d fits in
      rw r (c.fits, c.first_state ∙ p)
