-- ===== src/Gpt/Committing.antt =====
-- gpt_disk_update_crc and gpt_disk_commit of gpt-utils.cpp: the device after.
use device_blackshark_penros.Base.{
  List, ap, arith, inl, inr, some, sym, true, ℕ, ◌+◌, ◌<◌, ◌∙◌, ◌≡◌, ◌≤◌,
}
use device_blackshark_penros.Gpt.Bytes.{
  Buf, bytes_from, bytes_from-cong, get_4_bytes, get_4_bytes-field, shift, u32_mod,
}
use device_blackshark_penros.Gpt.Device.{Device, Files, System, done, next_turn}
use device_blackshark_penros.Gpt.Disk.{GptDisk, gpt_disk_commit, gpt_disk_update_crc, is_ready}
use device_blackshark_penros.Gpt.Header.{
  header_state, partition_crc_offset, primary_gpt, secondary_gpt,
}
use device_blackshark_penros.Gpt.Keeping.{written-kept, written-new}
use device_blackshark_penros.Gpt.Layout.{
  Describes, Describes-cong, Fits, IsLayout, Layout, field-below, first_entries, header_of,
  second_entries, second_offset,
}
use device_blackshark_penros.Gpt.Reliable.{IsReliable, written}
use device_blackshark_penros.Gpt.Relinking.{signature_state}
use device_blackshark_penros.Gpt.Resealing.{
  IsDisk, gpt_disk_update_crc-eq, resealed, resealed-Describes, resealed-entries_crc,
  resealed-state,
}
use device_blackshark_penros.Gpt.Sealing.{header_state-cong}
use device_blackshark_penros.Gpt.Writing.{committed, gpt_disk_commit-writes}

-- Where the parts of a disk stand after a commit.
module _ (l : Layout) (layout : IsLayout l) (disk : GptDisk) (d : Device) where
  abbrev after_first : Device
  after_first = written (next_turn d) l.blk_size disk.hdr l.blk_size

  abbrev after_first_array : Device
  after_first_array = written (next_turn after_first) l.first_start disk.pentry_arr l.array_size

  abbrev after_second : Device
  after_second = written (next_turn after_first_array) (second_offset l) disk.hdr_bak l.blk_size

  -- The second table is written after the first, and elsewhere.
  second-kept :
      (at m i : ℕ)
      → i < m
      → at + m ≤ l.second_start
      → shift (committed l disk d).byte at i ≡ shift after_first_array.byte at i
  second-kept at m i lt le =
      written-kept (next_turn after_second) l.second_start disk.pentry_arr_bak l.array_size at m i
        lt (inl le)
      ∙ written-kept (next_turn after_first_array) (second_offset l) disk.hdr_bak l.blk_size at m i
          lt (inl (omega (arith, layout.header_after_entries)))

  first_header-committed :
      (i : ℕ) → i < l.blk_size → header_of l (committed l disk d) primary_gpt i ≡ disk.hdr i
  first_header-committed i lt =
      second-kept l.blk_size l.blk_size i lt
        (omega (arith, layout.entries_after_header, layout.second_after_first))
      ∙ written-kept (next_turn after_first) l.first_start disk.pentry_arr l.array_size l.blk_size
          l.blk_size i lt (inl (omega (arith, layout.entries_after_header)))
      ∙ written-new (next_turn d) l.blk_size disk.hdr l.blk_size i lt

  first_entries-committed :
      (i : ℕ) → i < l.array_size → first_entries l (committed l disk d) i ≡ disk.pentry_arr i
  first_entries-committed i lt =
      second-kept l.first_start l.array_size i lt layout.second_after_first
      ∙ written-new (next_turn after_first) l.first_start disk.pentry_arr l.array_size i lt

  second_header-committed :
      (i : ℕ) → i < l.blk_size → header_of l (committed l disk d) secondary_gpt i ≡ disk.hdr_bak i
  second_header-committed i lt =
      written-kept (next_turn after_second) l.second_start disk.pentry_arr_bak l.array_size
        (second_offset l) l.blk_size i lt (inr (omega (arith, layout.header_after_entries)))
      ∙ written-new (next_turn after_first_array) (second_offset l) disk.hdr_bak l.blk_size i lt

  second_entries-committed :
      (i : ℕ) → i < l.array_size → second_entries l (committed l disk d) i ≡ disk.pentry_arr_bak i
  second_entries-committed i lt =
      written-new (next_turn after_second) l.second_start disk.pentry_arr_bak l.array_size i lt

  committed-Fits :
      (crc32 : List ℕ → ℕ)
      → d.size ≡ l.size
      → Describes l l.first_start disk.hdr
      → Describes l l.second_start disk.hdr_bak
      → get_4_bytes disk.hdr partition_crc_offset
        ≡ crc32 (bytes_from disk.pentry_arr 0 l.array_size)
      → Fits crc32 l (committed l disk d)
  committed-Fits crc32 whole first second crc = record {
    whole = whole;
    first =
        Describes-cong l l.first_start _ disk.hdr first
          (λ i field. first_header-committed i (field-below l layout field));
    second =
        Describes-cong l l.second_start _ disk.hdr_bak second
          (λ i field. second_header-committed i (field-below l layout field));
    entries_crc =
        get_4_bytes-field (header_of l (committed l disk d) primary_gpt) disk.hdr
          partition_crc_offset
          (λ i a b. first_header-committed i (omega (arith, layout.block_holds_fields)))
        ∙ crc
        ∙ ap crc32 (
            bytes_from-cong disk.pentry_arr (first_entries l (committed l disk d)) 0 l.array_size
              (λ i a b. sym (first_entries-committed i (omega arith))));
  }

  first_state-committed :
      (crc32 : List ℕ → ℕ)
      → Describes l l.first_start disk.hdr
      → header_state crc32 (header_of l (committed l disk d) primary_gpt)
        ≡ header_state crc32 disk.hdr
  first_state-committed crc32 first = sym (
      header_state-cong crc32 disk.hdr (header_of l (committed l disk d) primary_gpt) l.blk_size
        (omega (arith, layout.block_holds_fields)) first.header_fits
        (λ i lt. sym (first_header-committed i lt)))

  second_state-committed :
      (crc32 : List ℕ → ℕ)
      → Describes l l.second_start disk.hdr_bak
      → header_state crc32 (header_of l (committed l disk d) secondary_gpt)
        ≡ header_state crc32 disk.hdr_bak
  second_state-committed crc32 second = sym (
      header_state-cong crc32 disk.hdr_bak (header_of l (committed l disk d) secondary_gpt)
        l.blk_size (omega (arith, layout.block_holds_fields)) second.header_fits
        (λ i lt. sym (second_header-committed i lt)))

-- What a commit after an update of the CRCs leaves of the device.
pub record Committed (crc32 : List ℕ → ℕ) (files : Files) (sys : System) (l : Layout)
    (disk : GptDisk) (d : Device) : Type 0 where
  pub updated : GptDisk
  pub device : Device
  pub updates : gpt_disk_update_crc crc32 disk ≡ some updated
  pub commits : gpt_disk_commit files sys updated d ≡ (done tt, device)
  pub fits : Fits crc32 l device
  pub first_is : header_state crc32 (header_of l device primary_gpt) ≡ signature_state disk.hdr
  pub second_is :
      header_state crc32 (header_of l device secondary_gpt) ≡ signature_state disk.hdr_bak
  pub first_holds : (i : ℕ) → i < l.array_size → first_entries l device i ≡ disk.pentry_arr i
  pub second_holds : (i : ℕ) → i < l.array_size → second_entries l device i ≡ disk.pentry_arr_bak i

-- Of a disk in memory that is initialised, whose path opens, and whose two headers describe the two
-- tables of a layout and give the same header size, whatever its entries are: once its CRCs are updated
-- and it is committed to a device of the layout's size that does what it is asked, the device holds those
-- entries in both tables, the CRC of the first entries is right, and both headers have right CRCs and
-- the signatures of the headers in memory.
pub update_crc-commit :
    (crc32 : List ℕ → ℕ) (files : Files) (sys : System) (l : Layout) (disk : GptDisk) (d : Device)
    → ((bytes : List ℕ) → crc32 bytes < u32_mod)
    → IsLayout l
    → IsReliable sys l.blk_size
    → IsDisk files l disk
    → d.size ≡ l.size
    → Committed crc32 files sys l disk d
update_crc-commit crc32 files sys l disk d bounded layout reliable is whole =
    let (disk', updates, hdr, hdr_bak, arr, arr_bak, path, init) =
      gpt_disk_update_crc-eq crc32 files l disk is in
    let n = disk.pentry_arr_size in
    let h = resealed crc32 disk.hdr disk.pentry_arr n in
    let h_bak = resealed crc32 disk.hdr_bak disk.pentry_arr_bak n in
    let first : Describes l l.first_start disk'.hdr =
      rw hdr (resealed-Describes crc32 l l.first_start disk.hdr disk.pentry_arr n is.first) in
    let second : Describes l l.second_start disk'.hdr_bak =
      rw hdr_bak
        (resealed-Describes crc32 l l.second_start disk.hdr_bak disk.pentry_arr_bak n is.second) in
    let ready : is_ready disk' ≡ true = rw init is.ready in
    let opens : files.opens disk'.devpath ≡ true = rw path is.opens in
    let crc : get_4_bytes disk'.hdr partition_crc_offset
        ≡ crc32 (bytes_from disk'.pentry_arr 0 l.array_size) =
      rw (hdr, arr, ← is.sized) (resealed-entries_crc crc32 disk.hdr disk.pentry_arr n bounded) in
    record {
      updated = disk';
      device = committed l disk' d;
      updates = updates;
      commits =
          gpt_disk_commit-writes sys l layout reliable files disk' d ready opens first second whole;
      fits = committed-Fits l layout disk' d crc32 whole first second crc;
      first_is =
          first_state-committed l layout disk' d crc32 first
          ∙ ap (header_state crc32) hdr
          ∙ resealed-state crc32 disk.hdr disk.pentry_arr n bounded;
      second_is =
          second_state-committed l layout disk' d crc32 second
          ∙ ap (header_state crc32) hdr_bak
          ∙ resealed-state crc32 disk.hdr_bak disk.pentry_arr_bak n bounded;
      first_holds =
          λ i lt. first_entries-committed l layout disk' d i lt ∙ ap (λ (f : Buf). f i) arr;
      second_holds =
          λ i lt. second_entries-committed l layout disk' d i lt ∙ ap (λ (f : Buf). f i) arr_bak;
    }
