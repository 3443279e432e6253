-- ===== src/Gpt/Gathering.antt =====
-- gpt_disk_get_disk_info of gpt-utils.cpp: the disk in memory is the device's.
use device_blackshark_penros.Base.{List, arith, refl, some, sym, true, ℕ, ◌+◌, ◌<◌, ◌∙◌, ◌≡◌, ◌≤◌}
use device_blackshark_penros.Gpt.Bytes.{
  Buf, get_4_bytes, get_4_bytes-field, overlay, overlay-start, shift,
}
use device_blackshark_penros.Gpt.Device.{Device, FilePath, Files, System, done, next_turn}
use device_blackshark_penros.Gpt.Disk.{
  GptDisk, block_size_or_zero, crc_of, gpt_disk_get_disk_info, gpt_disk_init_magic, gpt_get_header,
  gpt_get_pentry_arr,
}
use device_blackshark_penros.Gpt.Files.{get_dev_path_from_partition_name}
use device_blackshark_penros.Gpt.Header.{
  GptInstance, header_size_offset, partition_crc_offset, pentry_size_offset, primary_gpt,
  secondary_gpt,
}
use device_blackshark_penros.Gpt.Layout.{
  Describes, Describes-cong, Fits, IsLayout, Layout, array_of, at_of, field-below, first_entries,
  header_of, second_entries,
}
use device_blackshark_penros.Gpt.Marking.{at_of-below, finds-header}
use device_blackshark_penros.Gpt.Reliable.{IsReliable, blk_rw-reads, calloc-gives, malloc-gives}
use device_blackshark_penros.Gpt.Resealing.{IsDisk}
use device_blackshark_penros.Gpt.Table.{pentries_array_size}
use device_blackshark_penros.Gpt.Writing.{gpt_get_block_size-gives}

-- What is gathered: both headers and both arrays of the device.
pub record Gathered (crc32 : List ℕ → ℕ) (files : Files) (sys : System) (l : Layout) (dev : List ℕ)
    (d : Device) : Type 0 where
  pub disk : GptDisk
  pub device : Device
  pub gathers : gpt_disk_get_disk_info crc32 files sys dev d ≡ (done disk, device)
  pub bytes_kept : device.byte ≡ d.byte
  pub size_kept : device.size ≡ d.size
  pub is_disk : IsDisk files l disk
  pub first_header : (i : ℕ) → i < l.blk_size → disk.hdr i ≡ header_of l d primary_gpt i
  pub second_header : (i : ℕ) → i < l.blk_size → disk.hdr_bak i ≡ header_of l d secondary_gpt i
  pub first_array : (i : ℕ) → i < l.array_size → disk.pentry_arr i ≡ first_entries l d i
  pub second_array : (i : ℕ) → i < l.array_size → disk.pentry_arr_bak i ≡ second_entries l d i

module _ (files : Files) (sys : System) (l : Layout) (layout : IsLayout l)
    (reliable : IsReliable sys l.blk_size) where
  abbrev header_read : GptInstance → Device → Buf
  header_read gpt d = overlay (sys.fresh d.turn) 0 (header_of l d gpt) l.blk_size

  gpt_get_header-reads :
      (path : FilePath) (gpt : GptInstance) (d : Device)
      → files.opens path ≡ true
      → d.size ≡ l.size
      → gpt_get_header sys files path gpt d ≡ (done (header_read gpt d), next_turn d)
  unfolding gpt_get_header
  gpt_get_header-reads path gpt d opens whole =
      rw
        (
          opens,
          gpt_get_block_size-gives sys l layout reliable d,
          malloc-gives sys l.blk_size reliable d,
          finds-header sys l layout reliable gpt d whole,
          blk_rw-reads sys l.blk_size reliable (at_of gpt l) (sys.fresh d.turn) l.blk_size d
              (at_of-below sys l layout reliable gpt) (omega (arith, layout.block_is_word)),
        )
        refl

  gpt_get_pentry_arr-reads :
      (h : Buf) (start : ℕ) (d : Device)
      → start + l.array_size ≤ l.size
      → Describes l start h
      → gpt_get_pentry_arr sys h d
        ≡ (done (overlay (λ i. 0) 0 (shift d.byte start) l.array_size), next_turn d)
  unfolding gpt_get_pentry_arr
  gpt_get_pentry_arr-reads h start d within described =
      rw
        (
          gpt_get_block_size-gives sys l layout reliable d,
          calloc-gives sys l.blk_size reliable d,
          described.starts,
          described.sized,
          blk_rw-reads sys l.blk_size reliable start (λ i. 0) l.array_size d
              (omega (arith, layout.size_is_offset)) (omega (arith, layout.array_is_word)),
        )
        refl

  header_read-Describes :
      (start : ℕ) (gpt : GptInstance) (d : Device)
      → Describes l start (header_of l d gpt)
      → Describes l start (header_read gpt d)
  header_read-Describes start gpt d described =
      Describes-cong l start (header_read gpt d) (header_of l d gpt) described (λ i field.
        overlay-start (sys.fresh d.turn) (header_of l d gpt) l.blk_size i
          (field-below l layout field))

  header_read-size :
      (gpt : GptInstance) (d : Device)
      → get_4_bytes (header_read gpt d) header_size_offset
        ≡ get_4_bytes (header_of l d gpt) header_size_offset
  header_read-size gpt d =
      get_4_bytes-field (header_read gpt d) (header_of l d gpt) header_size_offset (λ i a b.
        overlay-start (sys.fresh d.turn) (header_of l d gpt) l.blk_size i
          (omega (arith, layout.block_holds_fields)))

  block_size-reads : (d : Device) → block_size_or_zero sys d ≡ (done l.blk_size, d)
  block_size-reads d = rw (reliable.sized d.turn, block_size_or_zero) refl

  -- On a device with two tables whose headers have one length, that does what it is asked, the call
  -- succeeds and changes nothing, and the disk in memory has the headers and the entries of the
  -- device.
  pub gpt_disk_get_disk_info-Gathered :
      (crc32 : List ℕ → ℕ) (dev : List ℕ) (path : FilePath) (d : Device)
      → get_dev_path_from_partition_name files dev ≡ some path
      → files.opens path ≡ true
      → Fits crc32 l d
      → get_4_bytes (header_of l d secondary_gpt) header_size_offset
        ≡ get_4_bytes (header_of l d primary_gpt) header_size_offset
      → Gathered crc32 files sys l dev d
  unfolding gpt_disk_get_disk_info
  gpt_disk_get_disk_info-Gathered crc32 dev path d at_path opens fits same_size =
      let d1 = next_turn d in
      let d2 = next_turn d1 in
      let d3 = next_turn d2 in
      let d4 = next_turn d3 in
      let first = header_read-Describes l.first_start primary_gpt d fits.first in
      let second = header_read-Describes l.second_start secondary_gpt d1 fits.second in
      let hdr = header_read primary_gpt d in
      let hdr_bak = header_read secondary_gpt d1 in
      record {
        disk = record {
          hdr = hdr;
          hdr_crc = crc_of crc32 hdr (get_4_bytes hdr header_size_offset);
          hdr_bak = hdr_bak;
          hdr_bak_crc = crc_of crc32 hdr_bak (get_4_bytes hdr header_size_offset);
          pentry_arr = array_of l d2;
          pentry_arr_bak = overlay (λ i. 0) 0 (second_entries l d3) l.array_size;
          pentry_arr_size = pentries_array_size hdr;
          pentry_size = get_4_bytes hdr pentry_size_offset;
          pentry_arr_crc = get_4_bytes hdr partition_crc_offset;
          pentry_arr_bak_crc = get_4_bytes hdr_bak partition_crc_offset;
          devpath = path;
          block_size = l.blk_size;
          is_initialized = gpt_disk_init_magic;
        };
        device = d4;
        gathers =
            rw
              (
                at_path,
                gpt_get_header-reads path primary_gpt d opens fits.whole,
                gpt_get_header-reads path secondary_gpt d1 opens fits.whole,
                opens,
                gpt_get_pentry_arr-reads hdr l.first_start d2
                    (omega (arith, layout.second_after_first, layout.header_after_entries)) first,
                gpt_get_pentry_arr-reads hdr_bak l.second_start d3
                    (omega (arith, layout.header_after_entries)) second,
                block_size-reads d4,
              )
              refl;
        bytes_kept = refl;
        size_kept = refl;
        is_disk = record {
          ready = refl;
          opens = opens;
          first = first;
          second = second;
          sized = first.sized;
          same_header_size =
              header_read-size secondary_gpt d1 ∙ same_size ∙ sym (header_read-size primary_gpt d);
        };
        first_header =
            λ i lt. overlay-start (sys.fresh d.turn) (header_of l d primary_gpt) l.blk_size i lt;
        second_header =
            λ i lt. overlay-start (sys.fresh d1.turn) (header_of l d secondary_gpt) l.blk_size i lt;
        first_array = λ i lt. overlay-start (λ j. 0) (first_entries l d) l.array_size i lt;
        second_array = λ i lt. overlay-start (λ j. 0) (second_entries l d) l.array_size i lt;
      }
