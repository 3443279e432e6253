-- ===== src/Gpt/Writing.antt =====
-- gpt_disk_commit of gpt-utils.cpp: the writes that it makes.
use device_blackshark_penros.Base.{arith, false, ltb, refl, true, ℕ, ◌+◌, ◌==◌, ◌≡◌, ◌≤◌}
use device_blackshark_penros.Gpt.Bytes.{Buf}
use device_blackshark_penros.Gpt.Device.{Device, Files, System, done, next_turn}
use device_blackshark_penros.Gpt.Disk.{
  GptDisk, gpt_disk_commit, gpt_get_block_size, gpt_set_header, gpt_set_pentry_arr, is_ready,
}
use device_blackshark_penros.Gpt.Header.{GptInstance, primary_gpt, secondary_gpt}
use device_blackshark_penros.Gpt.Layout.{Describes, IsLayout, Layout, at_of, second_offset}
use device_blackshark_penros.Gpt.Marking.{at_of-below, finds-header}
use device_blackshark_penros.Gpt.Reliable.{IsReliable, blk_rw-writes, get_block_size-gives, written}

-- The device after the four writes of a commit.
abbrev pub committed : Layout → GptDisk → Device → Device
committed l disk d =
    written
      (next_turn (
        written
          (next_turn (
            written (next_turn (written (next_turn d) l.blk_size disk.hdr l.blk_size)) l.first_start
              disk.pentry_arr l.array_size))
          (second_offset l) disk.hdr_bak l.blk_size))
      l.second_start disk.pentry_arr_bak l.array_size

module _ (sys : System) (l : Layout) (layout : IsLayout l)
    (reliable : IsReliable sys l.blk_size) where
  pub gpt_get_block_size-gives : (d : Device) → gpt_get_block_size sys d ≡ (done l.blk_size, d)
  unfolding gpt_get_block_size
  gpt_get_block_size-gives d =
      let nonzero : (l.blk_size == 0) ≡ false = ground (arith, layout.block_holds_fields) in
      rw (get_block_size-gives sys l.blk_size reliable d, nonzero) refl

  at_of-positive : (gpt : GptInstance) → ltb 0 (at_of gpt l) ≡ true
  at_of-positive primary_gpt = ground (arith, layout.block_holds_fields)
  at_of-positive secondary_gpt = ground (
    arith, layout.block_holds_fields, layout.entries_after_header, layout.second_after_first,
    layout.header_after_entries,
  )

  gpt_set_header-writes :
      (h : Buf) (gpt : GptInstance) (d : Device)
      → d.size ≡ l.size
      → gpt_set_header sys h gpt d ≡ (done h, written (next_turn d) (at_of gpt l) h l.blk_size)
  unfolding gpt_set_header
  gpt_set_header-writes h gpt d whole =
      let inside : ltb 0 (at_of gpt l) ≡ true = at_of-positive gpt in
      rw
        (
          gpt_get_block_size-gives d,
          finds-header sys l layout reliable gpt d whole,
          inside,
          blk_rw-writes sys l.blk_size reliable (at_of gpt l) h l.blk_size d
              (at_of-below sys l layout reliable gpt) (omega (arith, layout.block_is_word)),
        )
        refl

  gpt_set_pentry_arr-writes :
      (h arr : Buf) (start : ℕ) (d : Device)
      → start + l.array_size ≤ l.size
      → Describes l start h
      → gpt_set_pentry_arr sys h arr d ≡ (done arr, written (next_turn d) start arr l.array_size)
  unfolding gpt_set_pentry_arr
  gpt_set_pentry_arr-writes h arr start d within described =
      rw
        (
          gpt_get_block_size-gives d,
          described.starts,
          described.sized,
          blk_rw-writes sys l.blk_size reliable start arr l.array_size d
              (omega (arith, layout.size_is_offset)) (omega (arith, layout.array_is_word)),
        )
        refl

  pub gpt_disk_commit-writes :
      (files : Files) (disk : GptDisk) (d : Device)
      → is_ready disk ≡ true
      → files.opens disk.devpath ≡ true
      → Describes l l.first_start disk.hdr
      → Describes l l.second_start disk.hdr_bak
      → d.size ≡ l.size
      → gpt_disk_commit files sys disk d ≡ (done tt, committed l disk d)
  unfolding gpt_disk_commit
  gpt_disk_commit-writes files disk d ready opens first second whole =
      let d1 = written (next_turn d) l.blk_size disk.hdr l.blk_size in
      let d2 = written (next_turn d1) l.first_start disk.pentry_arr l.array_size in
      let d3 = written (next_turn d2) (second_offset l) disk.hdr_bak l.blk_size in
      rw
        (
          ready,
          opens,
          gpt_set_header-writes disk.hdr primary_gpt d whole,
          gpt_set_pentry_arr-writes disk.hdr disk.pentry_arr l.first_start d1
              (omega (arith, layout.second_after_first, layout.header_after_entries)) first,
          gpt_set_header-writes disk.hdr_bak secondary_gpt d2 whole,
          gpt_set_pentry_arr-writes disk.hdr_bak disk.pentry_arr_bak l.second_start d3
              (omega (arith, layout.header_after_entries)) second,
        )
        refl
