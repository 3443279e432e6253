-- ===== src/Gpt/Chaining.antt =====
-- gpt2_set_boot_chain of gpt-utils.cpp on a device with two tables.
use device_blackshark_penros.Base.{
  ==_iff, Bool, List, Option, arith, false, refl, some, true, ℕ, ◌<◌, ◌==◌, ◌∙◌, ◌≡◌,
}
use device_blackshark_penros.Gpt.Bytes.{Buf, bytes_from, get_4_bytes, u32_mod}
use device_blackshark_penros.Gpt.Device.{Device, System, done, next_turn}
use device_blackshark_penros.Gpt.Header.{partition_crc_offset}
use device_blackshark_penros.Gpt.Layout.{Fits, IsLayout, Layout, array_of, second_offset}
use device_blackshark_penros.Gpt.Reliable.{
  IsReliable, blk_rw-reads, blk_rw-writes, calloc-gives, end_offset-gives, get_block_size-gives,
  malloc-gives, written,
}
use device_blackshark_penros.Gpt.Relinking.{
  chained, first_crc, first_described, first_in_memory, new_header, second_described,
  second_in_memory,
}
use device_blackshark_penros.Gpt.Table.{
  BootChain, chain_entries, gpt2_set_boot_chain, write_second_table,
}

module _ (crc32 : List ℕ → ℕ) (bounded : (bytes : List ℕ) → crc32 bytes < u32_mod) (sys : System)
    (l : Layout) (layout : IsLayout l) (reliable : IsReliable sys l.blk_size) where
  -- Up to the changes of the entries.
  gpt2_set_boot_chain-eq :
      (is_ufs : Bool) (boot : BootChain) (changed : Option Buf) (d : Device)
      → Fits crc32 l d
      → chain_entries is_ufs boot l.array_size l.entry_size (array_of l d) ≡ some changed
      → gpt2_set_boot_chain crc32 sys is_ufs boot d
        ≡ write_second_table crc32 sys
            (second_offset l)
            l.blk_size
            l.array_size
            (second_in_memory crc32 sys l d)
            changed
            (next_turn (next_turn (next_turn d)))
  unfolding gpt2_set_boot_chain
  gpt2_set_boot_chain-eq is_ufs boot changed d fits chains =
      let described = first_described crc32 bounded sys l layout d fits in
      let crc : (get_4_bytes (first_in_memory crc32 sys l d) partition_crc_offset
            == crc32 (bytes_from (array_of l d) 0 l.array_size))
          ≡ true =
        (==_iff _ _).1 (first_crc crc32 bounded sys l layout d fits) in
      rw
        (
          get_block_size-gives sys l.blk_size reliable d,
          malloc-gives sys l.blk_size reliable d,
          end_offset-gives sys l.blk_size reliable l.size d fits.whole
              (omega (arith, layout.header_after_entries)),
        )
        (rw
          (
            blk_rw-reads sys l.blk_size reliable l.blk_size (sys.fresh d.turn) l.blk_size d
                (omega (arith, layout.block_is_word)) (omega (arith, layout.block_is_word)),
            described.sized,
            described.starts,
            described.entry_sized,
            calloc-gives sys l.blk_size reliable (next_turn d),
            blk_rw-reads sys l.blk_size reliable l.first_start (λ i. 0) l.array_size (next_turn d)
                (omega (
                  arith, layout.size_is_offset, layout.second_after_first,
                  layout.header_after_entries,
                ))
                (omega (arith, layout.array_is_word)),
            crc,
            blk_rw-reads sys l.blk_size reliable (second_offset l) (first_in_memory crc32 sys l d)
                l.blk_size (next_turn (next_turn d)) (omega (arith, layout.size_is_offset))
                (omega (arith, layout.block_is_word)),
            chains,
          )
          refl)

  write_second_table-eq :
      (entries : Buf) (d : Device)
      → Fits crc32 l d
      → write_second_table crc32 sys
          (second_offset l)
          l.blk_size
          l.array_size
          (second_in_memory crc32 sys l d)
          (some entries)
          (next_turn (next_turn (next_turn d)))
        ≡ (done false, chained crc32 sys l entries d)
  unfolding write_second_table
  write_second_table-eq entries d fits =
      let described = second_described crc32 bounded sys l layout d fits in
      let d3 = next_turn (next_turn (next_turn d)) in
      let d4 =
        written (next_turn d3) (second_offset l) (new_header crc32 sys l entries d) l.blk_size in
      rw
        (
          blk_rw-writes sys l.blk_size reliable (second_offset l) (new_header crc32 sys l entries d)
              l.blk_size d3 (omega (arith, layout.size_is_offset))
              (omega (arith, layout.block_is_word)),
          described.starts,
          blk_rw-writes sys l.blk_size reliable l.second_start entries l.array_size d4
              (omega (arith, layout.size_is_offset, layout.header_after_entries))
              (omega (arith, layout.array_is_word)),
        )
        refl

  -- Where the entries of the second table are found, they are written.
  pub gpt2_set_boot_chain-writes :
      (is_ufs : Bool) (boot : BootChain) (entries : Buf) (d : Device)
      → Fits crc32 l d
      → chain_entries is_ufs boot l.array_size l.entry_size (array_of l d) ≡ some (some entries)
      → gpt2_set_boot_chain crc32 sys is_ufs boot d ≡ (done false, chained crc32 sys l entries d)
  gpt2_set_boot_chain-writes is_ufs boot entries d fits chains =
      gpt2_set_boot_chain-eq is_ufs boot (some entries) d fits chains
      ∙ write_second_table-eq entries d fits
