-- ===== src/Gpt/Stopping.antt =====
-- What the calls of gpt-utils.cpp that change a table leave of the device, wherever they stop.
use device_blackshark_penros.Base.{
  ==_iff, Bool, List, Option, arith, false, inl, inr, none, refl, some, sym, true, ℕ, ◌+◌, ◌<◌,
  ◌==◌, ◌≡◌, ◌≤◌, ◌⊎◌,
}
use device_blackshark_penros.Gpt.Bytes.{Buf, bytes_from, get_4_bytes, overlay-start, u32_mod}
use device_blackshark_penros.Gpt.Device.{Device, System, and_then, done, next_turn}
use device_blackshark_penros.Gpt.Effects.{
  IsWhole, Leaves, Leaves-done, Leaves-step, Quiet, SameRegion, SameRegion-trans, Touched,
  blk_rw-Reads, blk_rw-Writes, calloc-Leaves, end_offset-Leaves, get_block_size-Leaves,
  malloc-Leaves,
}
use device_blackshark_penros.Gpt.Header.{
  GptInstance, GptState, gpt_get_state, gpt_set_state, header_offset, header_state, marked,
  partition_crc_offset, primary_gpt, secondary_gpt,
}
use device_blackshark_penros.Gpt.Keeping.{written-kept}
use device_blackshark_penros.Gpt.Layout.{
  Fits, IsLayout, Layout, array_of, at_of, header_of, header_size-le, second_offset,
}
use device_blackshark_penros.Gpt.Marking.{read_of, remarked}
use device_blackshark_penros.Gpt.Reliable.{written}
use device_blackshark_penros.Gpt.Relinking.{
  chained, first_crc, first_described, first_in_memory, new_header, second_described,
  second_in_memory,
}
use device_blackshark_penros.Gpt.Sealing.{header_state-cong}
use device_blackshark_penros.Gpt.Table.{
  BootChain, chain_entries, gpt2_set_boot_chain, looped, write_second_table,
}

module _ (crc32 : List ℕ → ℕ) (bounded : (bytes : List ℕ) → crc32 bytes < u32_mod) (sys : System)
    (l : Layout) (layout : IsLayout l) (whole : IsWhole sys l.blk_size) where
  header_offset-Leaves :
      (gpt : GptInstance) (d : Device)
      → d.size ≡ l.size
      → Leaves
          (λ b d'. (b ≡ at_of gpt l) × (d' ≡ d))
          (λ d'. d' ≡ d)
          (header_offset sys gpt l.blk_size d)
  unfolding header_offset
  header_offset-Leaves primary_gpt d sized = (refl, refl)
  header_offset-Leaves secondary_gpt d sized = end_offset-Leaves sys l.blk_size whole l.size d sized

  pub gpt_get_state-Leaves :
      (gpt : GptInstance) (d : Device)
      → Fits crc32 l d
      → Leaves
          (λ s d'. (s ≡ header_state crc32 (header_of l d gpt)) × (d' ≡ next_turn d))
          (Quiet d)
          (gpt_get_state crc32 sys gpt d)
  unfolding gpt_get_state
  gpt_get_state-Leaves gpt d fits =
      let still : (d' : Device) → d' ≡ d → Quiet d d' = λ d' e. rw e (refl, refl) in
      let turned : (d' : Device) → d' ≡ next_turn d → Quiet d d' = λ d' e. rw e (refl, refl) in
      let same =
        header_state-cong crc32 (header_of l d gpt) (read_of crc32 sys l d.turn d gpt) l.blk_size
          (omega (arith, layout.block_holds_fields)) (header_size-le crc32 l d fits gpt)
          (λ i lt. sym (overlay-start (sys.fresh d.turn) (header_of l d gpt) l.blk_size i lt)) in
      Leaves-step _ _ (λ d'. d' ≡ d) l.blk_size d _ _ still
        (get_block_size-Leaves sys l.blk_size whole d)
        (Leaves-step _ _ (λ d'. d' ≡ d) (sys.fresh d.turn) d _ _ still
          (malloc-Leaves sys l.blk_size whole d)
          (Leaves-step _ _ (λ d'. d' ≡ d) (at_of gpt l) d _ _ still
            (header_offset-Leaves gpt d fits.whole)
            (Leaves-step _ _ (λ d'. d' ≡ next_turn d) (read_of crc32 sys l d.turn d gpt)
              (next_turn d) _ _ turned
              (blk_rw-Reads sys l.blk_size whole (at_of gpt l) (sys.fresh d.turn) l.blk_size d
                (omega (arith, layout.block_is_word)))
              (sym same, refl))))

  pub gpt_set_state-Leaves :
      (gpt : GptInstance) (state : GptState) (mark : Buf → Buf) (d : Device)
      → d.size ≡ l.size
      → ((h : Buf) (d' : Device) → marked state h d' ≡ (done (mark h), d'))
      → Leaves
          (λ b d'. d' ≡ remarked crc32 sys l mark gpt d)
          (λ d'. Touched (at_of gpt l) l.blk_size d d')
          (gpt_set_state crc32 sys gpt state d)
  unfolding gpt_set_state
  gpt_set_state-Leaves gpt state mark d sized marks =
      let still : (d' : Device) → d' ≡ d → Touched (at_of gpt l) l.blk_size d d' =
        λ d' e. rw e (λ at m apart. (refl, λ i lt. refl)) in
      let turned : (d' : Device) → d' ≡ next_turn d → Touched (at_of gpt l) l.blk_size d d' =
        λ d' e. rw e (λ at m apart. (refl, λ i lt. refl)) in
      Leaves-step _ _ (λ d'. d' ≡ d) l.blk_size d _ _ still
        (get_block_size-Leaves sys l.blk_size whole d)
        (Leaves-step _ _ (λ d'. d' ≡ d) (sys.fresh d.turn) d _ _ still
          (malloc-Leaves sys l.blk_size whole d)
          (Leaves-step _ _ (λ d'. d' ≡ d) (at_of gpt l) d _ _ still
            (header_offset-Leaves gpt d sized)
            (Leaves-step _ _ (λ d'. d' ≡ next_turn d) (read_of crc32 sys l d.turn d gpt)
              (next_turn d) _ _ turned
              (blk_rw-Reads sys l.blk_size whole (at_of gpt l) (sys.fresh d.turn) l.blk_size d
                (omega (arith, layout.block_is_word)))
              (rw (marks (read_of crc32 sys l d.turn d gpt) (next_turn d)) (
                blk_rw-Writes sys l.blk_size whole (at_of gpt l) _ l.blk_size (next_turn d)
                  (omega (arith, layout.block_is_word)))))))

  -- What a write of the second table leaves, wherever it stops: all that stands before the table.
  abbrev pub KeepsFirst : Device → Device → Type 0
  KeepsFirst d d' = (at m : ℕ) → at + m ≤ l.second_start → SameRegion at m d d'

  -- Either no backup was found, and nothing written, or the whole second table was.
  abbrev pub Chains : Device → Bool → Device → Type 0
  Chains d not_found d' =
      ((not_found ≡ true) × Quiet d d')
      ⊎ ((not_found ≡ false) × (entries : Buf) × (d' ≡ chained crc32 sys l entries d))

  write_second_table-Leaves :
      (changed : Option Buf) (d : Device)
      → Fits crc32 l d
      → Leaves (Chains d) (KeepsFirst d) (
          write_second_table crc32 sys
            (second_offset l)
            l.blk_size
            l.array_size
            (second_in_memory crc32 sys l d)
            changed
            (next_turn (next_turn (next_turn d))))
  unfolding write_second_table
  write_second_table-Leaves none d fits = inl (refl, (refl, refl))
  write_second_table-Leaves (some entries) d fits =
      let d3 = next_turn (next_turn (next_turn d)) in
      let d4 =
        written (next_turn d3) (second_offset l) (new_header crc32 sys l entries d) l.blk_size in
      let described = second_described crc32 bounded sys l layout d fits in
      let before : (d' : Device) → Touched (second_offset l) l.blk_size d3 d' → KeepsFirst d d' =
        λ d' t at m le. t at m (inl (omega (arith, layout.header_after_entries))) in
      let header_kept : KeepsFirst d d4 = λ at m le. (
        refl,
        λ i lt.
            written-kept (next_turn d3) (second_offset l) (new_header crc32 sys l entries d)
              l.blk_size at m i lt (inl (omega (arith, layout.header_after_entries))),
      ) in
      let array_kept : (d' : Device) → Touched l.second_start l.array_size d4 d' → KeepsFirst d d' =
        λ d' t at m le. SameRegion-trans at m d d4 d' (header_kept at m le) (t at m (inl le)) in
      Leaves-done _ _ (Touched (second_offset l) l.blk_size d3) d4 _ _ before
        (blk_rw-Writes sys l.blk_size whole (second_offset l) (new_header crc32 sys l entries d)
          l.blk_size d3 (omega (arith, layout.block_is_word)))
        (λ b. rw described.starts (
          Leaves-done _ _ (Touched l.second_start l.array_size d4) (chained crc32 sys l entries d) _
            _ array_kept
            (blk_rw-Writes sys l.blk_size whole l.second_start entries l.array_size d4
              (omega (arith, layout.array_is_word)))
            (λ b'. inr (refl, entries, refl))))

  -- A search that does not end leaves the device too.
  looped-Leaves :
      (changed : Option (Option Buf)) (d : Device)
      → Fits crc32 l d
      → Leaves (Chains d) (KeepsFirst d) (
          and_then (looped changed (next_turn (next_turn (next_turn d)))) (
            write_second_table crc32 sys
              (second_offset l)
              l.blk_size
              l.array_size
              (second_in_memory crc32 sys l d)))
  looped-Leaves none d fits = λ at m le. (refl, λ i lt. refl)
  looped-Leaves (some changed) d fits = write_second_table-Leaves changed d fits

  pub gpt2_set_boot_chain-Leaves :
      (is_ufs : Bool) (boot : BootChain) (d : Device)
      → Fits crc32 l d
      → Leaves (Chains d) (KeepsFirst d) (gpt2_set_boot_chain crc32 sys is_ufs boot d)
  unfolding gpt2_set_boot_chain
  gpt2_set_boot_chain-Leaves is_ufs boot d fits =
      let described = first_described crc32 bounded sys l layout d fits in
      let d1 = next_turn d in
      let d2 = next_turn d1 in
      let d3 = next_turn d2 in
      let crc : (get_4_bytes (first_in_memory crc32 sys l d) partition_crc_offset
            == crc32 (bytes_from (array_of l d) 0 l.array_size))
          ≡ true =
        (==_iff _ _).1 (first_crc crc32 bounded sys l layout d fits) in
      let at0 : (d' : Device) → d' ≡ d → KeepsFirst d d' =
        λ d' e. rw e (λ at m le. (refl, λ i lt. refl)) in
      let at1 : (d' : Device) → d' ≡ d1 → KeepsFirst d d' =
        λ d' e. rw e (λ at m le. (refl, λ i lt. refl)) in
      let at2 : (d' : Device) → d' ≡ d2 → KeepsFirst d d' =
        λ d' e. rw e (λ at m le. (refl, λ i lt. refl)) in
      let at3 : (d' : Device) → d' ≡ d3 → KeepsFirst d d' =
        λ d' e. rw e (λ at m le. (refl, λ i lt. refl)) in
      Leaves-step _ _ (λ d'. d' ≡ d) l.blk_size d _ _ at0
        (get_block_size-Leaves sys l.blk_size whole d)
        (Leaves-step _ _ (λ d'. d' ≡ d) (sys.fresh d.turn) d _ _ at0
          (malloc-Leaves sys l.blk_size whole d)
          (Leaves-step _ _ (λ d'. d' ≡ d) (second_offset l) d _ _ at0
            (end_offset-Leaves sys l.blk_size whole l.size d fits.whole)
            (Leaves-step _ _ (λ d'. d' ≡ d1) (first_in_memory crc32 sys l d) d1 _ _ at1
              (blk_rw-Reads sys l.blk_size whole l.blk_size (sys.fresh d.turn) l.blk_size d
                (omega (arith, layout.block_is_word)))
              (rw (described.sized, described.starts, described.entry_sized)
                (Leaves-step _ _ (λ d'. d' ≡ d1) (λ i. 0) d1 _ _ at1
                  (calloc-Leaves sys l.blk_size whole d1)
                  (Leaves-step _ _ (λ d'. d' ≡ d2) (array_of l d) d2 _ _ at2
                    (blk_rw-Reads sys l.blk_size whole l.first_start (λ i. 0) l.array_size d1
                      (omega (arith, layout.array_is_word)))
                    (rw crc (
                      Leaves-step _ _ (λ d'. d' ≡ d3) (second_in_memory crc32 sys l d) d3 _ _ at3
                        (blk_rw-Reads sys l.blk_size whole (second_offset l)
                          (first_in_memory crc32 sys l d) l.blk_size d2
                          (omega (arith, layout.block_is_word)))
                        (looped-Leaves
                          (chain_entries is_ufs boot l.array_size l.entry_size (array_of l d)) d
                          fits)))))))))
