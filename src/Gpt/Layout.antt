-- ===== src/Gpt/Layout.antt =====
-- A device with two partition tables, as gpt-utils.cpp expects it: the first header, the first
-- entries, the second entries and the second header, in this order.
use device_blackshark_penros.Base.{List, arith, inl, inr, ℕ, ◌*◌, ◌+◌, ◌-◌, ◌<◌, ◌^◌, ◌≡◌, ◌≤◌, ◌⊎◌}
use device_blackshark_penros.Gpt.Bytes.{
  Buf, bytes_from, get_4_bytes, get_4_bytes-field, get_8_bytes-field, overlay, shift, u32_mod,
}
use device_blackshark_penros.Gpt.Device.{Device}
use device_blackshark_penros.Gpt.Header.{
  GptInstance, header_size_offset, partition_count_offset, partition_crc_offset, pentries_offset,
  pentry_size_offset, primary_gpt, secondary_gpt,
}
use device_blackshark_penros.Gpt.Table.{pentries_array_size, pentries_start_offset}

-- Where the parts stand, and how long they are.
pub record Layout : Type 0 where
  pub blk_size : ℕ
  pub size : ℕ
  pub first_start : ℕ
  pub second_start : ℕ
  pub array_size : ℕ
  pub entry_size : ℕ

-- The parts do not overlap, and offsets fit their types.
pub record IsLayout (l : Layout) : Type 0 where
  pub block_holds_fields : 92 ≤ l.blk_size
  pub block_is_word : l.blk_size < u32_mod
  pub array_is_word : l.array_size < u32_mod
  pub size_is_offset : l.size < 2 ^ 63
  pub entries_after_header : 2 * l.blk_size ≤ l.first_start
  pub second_after_first : l.first_start + l.array_size ≤ l.second_start
  pub header_after_entries : l.second_start + l.array_size + l.blk_size ≤ l.size

abbrev pub second_offset : Layout → ℕ
second_offset l = l.size - l.blk_size

-- Where the headers stand.
abbrev pub at_of : GptInstance → Layout → ℕ
at_of primary_gpt l = l.blk_size
at_of secondary_gpt l = second_offset l

-- The headers and the entries of a device.
abbrev pub header_of : Layout → Device → GptInstance → Buf
header_of l d gpt = shift d.byte (at_of gpt l)

abbrev pub first_entries : Layout → Device → Buf
first_entries l d = shift d.byte l.first_start

abbrev pub second_entries : Layout → Device → Buf
second_entries l d = shift d.byte l.second_start

-- The first entries as they are read into cleared memory.
abbrev pub array_of : Layout → Device → Buf
array_of l d = overlay (λ i. 0) 0 (first_entries l d) l.array_size

-- What a header says of the table.
pub record Describes (l : Layout) (start : ℕ) (h : Buf) : Type 0 where
  pub header_fits : get_4_bytes h header_size_offset ≤ l.blk_size
  pub starts : pentries_start_offset h l.blk_size ≡ start
  pub sized : pentries_array_size h ≡ l.array_size
  pub entry_sized : get_4_bytes h pentry_size_offset ≡ l.entry_size

-- The device has this layout, and the first header the CRC of the first entries.
pub record Fits (crc32 : List ℕ → ℕ) (l : Layout) (d : Device) : Type 0 where
  pub whole : d.size ≡ l.size
  pub first : Describes l l.first_start (header_of l d primary_gpt)
  pub second : Describes l l.second_start (header_of l d secondary_gpt)
  pub entries_crc :
      get_4_bytes (header_of l d primary_gpt) partition_crc_offset
      ≡ crc32 (bytes_from (first_entries l d) 0 l.array_size)

-- The bytes that hold the fields of the layout.
abbrev pub IsFieldByte : ℕ → Type 0
IsFieldByte i = ((12 ≤ i) × (i < 16)) ⊎ ((72 ≤ i) × (i < 88))

pub Describes-cong :
    (l : Layout) (start : ℕ) (g h : Buf)
    → Describes l start h
    → ((i : ℕ) → IsFieldByte i → g i ≡ h i)
    → Describes l start g
unfolding pentries_start_offset pentries_array_size
Describes-cong l start g h described same =
    let size =
      get_4_bytes-field g h header_size_offset (λ i a b. same i (inl (omega arith, omega arith))) in
    let where_ =
      get_8_bytes-field g h pentries_offset (λ i a b. same i (inr (omega arith, omega arith))) in
    let count =
      get_4_bytes-field g h partition_count_offset
        (λ i a b. same i (inr (omega arith, omega arith))) in
    let each =
      get_4_bytes-field g h pentry_size_offset (λ i a b. same i (inr (omega arith, omega arith))) in
    record {
      header_fits = rw size described.header_fits;
      starts = rw where_ described.starts;
      sized = rw (count, each) described.sized;
      entry_sized = rw each described.entry_sized;
    }

pub header_size-le :
    (crc32 : List ℕ → ℕ) (l : Layout) (d : Device)
    → Fits crc32 l d
    → (gpt : GptInstance) → get_4_bytes (header_of l d gpt) header_size_offset ≤ l.blk_size
header_size-le crc32 l d fits primary_gpt = fits.first.header_fits
header_size-le crc32 l d fits secondary_gpt = fits.second.header_fits

pub field-below : (l : Layout) → IsLayout l → {i : ℕ} → IsFieldByte i → i < l.blk_size
field-below l layout (inl (a, b)) = omega (arith, layout.block_holds_fields)
field-below l layout (inr (a, b)) = omega (arith, layout.block_holds_fields)
