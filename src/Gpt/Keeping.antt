-- ===== src/Gpt/Keeping.antt =====
-- What a write to a device with two tables leaves alone.
use device_blackshark_penros.Base.{List, arith, inl, inr, sym, ℕ, ◌+◌, ◌<◌, ◌∙◌, ◌≡◌, ◌≤◌, ◌⊎◌}
use device_blackshark_penros.Gpt.Bytes.{
  Buf, bytes_from-cong, get_4_bytes, get_4_bytes-field, overlay-inside, overlay-outside, shift,
}
use device_blackshark_penros.Gpt.Device.{Device}
use device_blackshark_penros.Gpt.Header.{
  GptInstance, header_size_offset, header_state, partition_crc_offset, primary_gpt, secondary_gpt,
}
use device_blackshark_penros.Gpt.Layout.{
  Describes-cong, Fits, IsFieldByte, IsLayout, Layout, at_of, first_entries, header_of,
  second_entries, second_offset,
}
use device_blackshark_penros.Gpt.Reliable.{written}
use device_blackshark_penros.Gpt.Sealing.{header_state-cong}

-- A region that a write does not meet keeps its bytes.
pub written-kept :
    (d : Device) (offset : ℕ) (from : Buf) (n at m i : ℕ)
    → i < m
    → (at + m ≤ offset) ⊎ (offset + n ≤ at)
    → shift (written d offset from n).byte at i ≡ shift d.byte at i
written-kept d offset from n at m i lt (inl before) =
    overlay-outside d.byte offset from n (at + i) (inl (omega arith))
written-kept d offset from n at m i lt (inr after) =
    overlay-outside d.byte offset from n (at + i) (inr (omega arith))

pub written-new :
    (d : Device) (offset : ℕ) (from : Buf) (n i : ℕ)
    → i < n
    → shift (written d offset from n).byte offset i ≡ from i
written-new d offset from n i lt = overlay-inside d.byte offset from n i lt

module _ (crc32 : List ℕ → ℕ) (l : Layout) (layout : IsLayout l) where
  pub Fits-kept :
      (d d' : Device)
      → Fits crc32 l d
      → d'.size ≡ d.size
      → ((i : ℕ) → IsFieldByte i → header_of l d' primary_gpt i ≡ header_of l d primary_gpt i)
      → ((i : ℕ) → IsFieldByte i → header_of l d' secondary_gpt i ≡ header_of l d secondary_gpt i)
      → ((i : ℕ) → 88 ≤ i → i < 92 → header_of l d' primary_gpt i ≡ header_of l d primary_gpt i)
      → ((i : ℕ) → i < l.array_size → first_entries l d' i ≡ first_entries l d i)
      → Fits crc32 l d'
  Fits-kept d d' fits sizes first second crc entries =
      let crc_kept =
        get_4_bytes-field (header_of l d' primary_gpt) (header_of l d primary_gpt)
          partition_crc_offset (λ i a b. crc i a b) in
      let entries_kept =
        bytes_from-cong (first_entries l d') (first_entries l d) 0 l.array_size
          (λ i a b. entries i (omega arith)) in
      record {
        whole = sizes ∙ fits.whole;
        first =
            Describes-cong l l.first_start (header_of l d' primary_gpt) (header_of l d primary_gpt)
              fits.first first;
        second =
            Describes-cong l l.second_start (header_of l d' secondary_gpt)
              (header_of l d secondary_gpt) fits.second second;
        entries_crc = rw (crc_kept, entries_kept) fits.entries_crc;
      }

  -- Two devices hold the same header.
  pub header_state-kept :
      (d d' : Device) (gpt : GptInstance)
      → get_4_bytes (header_of l d gpt) header_size_offset ≤ l.blk_size
      → ((i : ℕ) → i < l.blk_size → header_of l d' gpt i ≡ header_of l d gpt i)
      → header_state crc32 (header_of l d' gpt) ≡ header_state crc32 (header_of l d gpt)
  header_state-kept d d' gpt within same = sym (
      header_state-cong crc32 (header_of l d gpt) (header_of l d' gpt) l.blk_size
        (omega (arith, layout.block_holds_fields)) within (λ i lt. sym (same i lt)))

-- The other table.
abbrev pub other : GptInstance → GptInstance
other primary_gpt = secondary_gpt
other secondary_gpt = primary_gpt

module _ (l : Layout) (layout : IsLayout l) where
  -- A write of a header's block leaves the other header, and both arrays.
  pub header-kept :
      (gpt : GptInstance) (d : Device) (from : Buf) (i : ℕ)
      → i < l.blk_size
      → header_of l (written d (at_of gpt l) from l.blk_size) (other gpt) i
        ≡ header_of l d (other gpt) i
  header-kept primary_gpt d from i lt =
      written-kept d l.blk_size from l.blk_size (second_offset l) l.blk_size i lt (
        inr (
          omega (
            arith, layout.entries_after_header, layout.second_after_first,
            layout.header_after_entries,
          )))
  header-kept secondary_gpt d from i lt =
      written-kept d (second_offset l) from l.blk_size l.blk_size l.blk_size i lt (
        inl (
          omega (
            arith, layout.entries_after_header, layout.second_after_first,
            layout.header_after_entries,
          )))

  pub first_entries-kept :
      (gpt : GptInstance) (d : Device) (from : Buf) (i : ℕ)
      → i < l.array_size
      → first_entries l (written d (at_of gpt l) from l.blk_size) i ≡ first_entries l d i
  first_entries-kept primary_gpt d from i lt =
      written-kept d l.blk_size from l.blk_size l.first_start l.array_size i lt
        (inr (omega (arith, layout.entries_after_header)))
  first_entries-kept secondary_gpt d from i lt =
      written-kept d (second_offset l) from l.blk_size l.first_start l.array_size i lt
        (inl (omega (arith, layout.second_after_first, layout.header_after_entries)))

  pub second_entries-kept :
      (gpt : GptInstance) (d : Device) (from : Buf) (i : ℕ)
      → i < l.array_size
      → second_entries l (written d (at_of gpt l) from l.blk_size) i ≡ second_entries l d i
  second_entries-kept primary_gpt d from i lt =
      written-kept d l.blk_size from l.blk_size l.second_start l.array_size i lt
        (inr (omega (arith, layout.entries_after_header, layout.second_after_first)))
  second_entries-kept secondary_gpt d from i lt =
      written-kept d (second_offset l) from l.blk_size l.second_start l.array_size i lt
        (inl (omega (arith, layout.header_after_entries)))
