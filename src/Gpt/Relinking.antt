-- ===== src/Gpt/Relinking.antt =====
-- The device that gpt2_set_boot_chain of gpt-utils.cpp leaves.
use device_blackshark_penros.Base.{
  Bool, List, ap, arith, if◌then◌else◌, inl, inr, refl, sym, ℕ, ◌+◌, ◌<◌, ◌∙◌, ◌≡◌, ◌≤◌, ◌⊎◌,
}
use device_blackshark_penros.Gpt.Bytes.{
  Buf, bytes_from, bytes_from-cong, get_4_bytes, get_4_bytes-field, overlay, overlay-start,
  put_4_bytes, put_4_bytes-outside, shift, u32_mod,
}
use device_blackshark_penros.Gpt.Device.{Device, System, next_turn}
use device_blackshark_penros.Gpt.Header.{
  GptState, gpt_bad_signature, gpt_ok, gpt_signature, header_size_offset, header_state,
  partition_crc_offset, primary_gpt, same_bytes, sealed, secondary_gpt, signature_size,
}
use device_blackshark_penros.Gpt.Keeping.{Fits-kept, header_state-kept, written-kept, written-new}
use device_blackshark_penros.Gpt.Layout.{
  Describes, Describes-cong, Fits, IsFieldByte, IsLayout, Layout, array_of, field-below,
  first_entries, header_of, second_entries, second_offset,
}
use device_blackshark_penros.Gpt.Marking.{read_of}
use device_blackshark_penros.Gpt.Reliable.{written}
use device_blackshark_penros.Gpt.Sealing.{
  header_state-cong, header_state-sealed, same_bytes-cong, sealed-outside, sealed-size,
}
use device_blackshark_penros.Gpt.Table.{with_entries_crc}

-- The state that a signature gives a header whose CRC is right.
abbrev pub signature_state : Buf → GptState
signature_state h = if same_bytes h gpt_signature signature_size then gpt_ok else gpt_bad_signature

-- What a call that writes the second table does: the layout, the first table and the boot LUN stay,
-- the second array is the given one, and the second header has a right CRC and its old signature.
pub record Chained (crc32 : List ℕ → ℕ) (l : Layout) (entries : Buf) (d d' : Device) : Type 0 where
  pub fits : Fits crc32 l d'
  pub first_state :
      header_state crc32 (header_of l d' primary_gpt)
      ≡ header_state crc32 (header_of l d primary_gpt)
  pub second_state :
      header_state crc32 (header_of l d' secondary_gpt)
      ≡ signature_state (header_of l d secondary_gpt)
  pub first_kept : (i : ℕ) → i < l.array_size → first_entries l d' i ≡ first_entries l d i
  pub second_new : (i : ℕ) → i < l.array_size → second_entries l d' i ≡ entries i
  pub lun_kept : d'.boot_lun ≡ d.boot_lun

pub apart : {i : ℕ} → (i < 16) ⊎ ((20 ≤ i) × (i < 88)) → (i < 16) ⊎ (20 ≤ i)
apart (inl a) = inl a
apart (inr (a, b)) = inr a

pub early : {i : ℕ} → (i < 16) ⊎ ((20 ≤ i) × (i < 88)) → i < 88
early (inl a) = omega arith
early (inr (a, b)) = b

pub field-apart : {i : ℕ} → IsFieldByte i → (i < 16) ⊎ ((20 ≤ i) × (i < 88))
field-apart (inl (a, b)) = inl b
field-apart (inr (a, b)) = inr (omega arith, b)

module _ (crc32 : List ℕ → ℕ) (sys : System) (l : Layout) where
  abbrev pub first_in_memory : Device → Buf
  first_in_memory d = read_of crc32 sys l d.turn d primary_gpt

  -- The buffer of the first header, read over by the second.
  abbrev pub second_in_memory : Device → Buf
  second_in_memory d = overlay (first_in_memory d) 0 (header_of l d secondary_gpt) l.blk_size

  abbrev pub new_header : Buf → Device → Buf
  new_header entries d = with_entries_crc crc32 (second_in_memory d) entries l.array_size

  -- The device after both parts of the second table are written.
  abbrev pub chained : Buf → Device → Device
  chained entries d =
      written
        (next_turn (
          written (next_turn (next_turn (next_turn (next_turn d)))) (second_offset l)
            (new_header entries d) l.blk_size))
        l.second_start entries l.array_size

module _ (crc32 : List ℕ → ℕ) (bounded : (bytes : List ℕ) → crc32 bytes < u32_mod) (sys : System)
    (l : Layout) (layout : IsLayout l) where
  pub first_described :
      (d : Device) → Fits crc32 l d → Describes l l.first_start (first_in_memory crc32 sys l d)
  first_described d fits =
      Describes-cong l l.first_start (first_in_memory crc32 sys l d) (header_of l d primary_gpt)
        fits.first
        (λ i field.
          overlay-start (sys.fresh d.turn) (header_of l d primary_gpt) l.blk_size i
            (field-below l layout field))

  pub second_described :
      (d : Device) → Fits crc32 l d → Describes l l.second_start (second_in_memory crc32 sys l d)
  second_described d fits =
      Describes-cong l l.second_start (second_in_memory crc32 sys l d) (header_of l d secondary_gpt)
        fits.second
        (λ i field.
          overlay-start (first_in_memory crc32 sys l d) (header_of l d secondary_gpt) l.blk_size i
            (field-below l layout field))

  pub first_crc :
      (d : Device)
      → Fits crc32 l d
      → get_4_bytes (first_in_memory crc32 sys l d) partition_crc_offset
        ≡ crc32 (bytes_from (array_of l d) 0 l.array_size)
  first_crc d fits =
      get_4_bytes-field (first_in_memory crc32 sys l d) (header_of l d primary_gpt)
        partition_crc_offset
        (λ i a b.
          overlay-start (sys.fresh d.turn) (header_of l d primary_gpt) l.blk_size i
            (omega (arith, layout.block_holds_fields)))
      ∙ fits.entries_crc
      ∙ ap crc32 (
          bytes_from-cong (first_entries l d) (array_of l d) 0 l.array_size (λ i a b.
            sym (overlay-start (λ j. 0) (first_entries l d) l.array_size i (omega arith))))

  -- The bytes of the second header that are written: outside of both CRC fields, the old ones.
  new_header-keeps :
      (entries : Buf) (d : Device) (i : ℕ)
      → i < l.blk_size
      → (i < 16) ⊎ ((20 ≤ i) × (i < 88))
      → new_header crc32 sys l entries d i ≡ header_of l d secondary_gpt i
  unfolding with_entries_crc
  new_header-keeps entries d i lt place =
      sealed-outside crc32 _ i (apart place)
      ∙ put_4_bytes-outside (second_in_memory crc32 sys l d) partition_crc_offset _ i
          (inl (early place))
      ∙ overlay-start (first_in_memory crc32 sys l d) (header_of l d secondary_gpt) l.blk_size i lt

  -- The second header on the device.
  second_header-chained :
      (entries : Buf) (d : Device) (i : ℕ)
      → i < l.blk_size
      → header_of l (chained crc32 sys l entries d) secondary_gpt i
        ≡ new_header crc32 sys l entries d i
  second_header-chained entries d i lt =
      let d4 = next_turn (next_turn (next_turn (next_turn d))) in
      written-kept
        (next_turn (written d4 (second_offset l) (new_header crc32 sys l entries d) l.blk_size))
        l.second_start entries l.array_size (second_offset l) l.blk_size i lt
        (inr (omega (arith, layout.header_after_entries)))
      ∙ written-new d4 (second_offset l) (new_header crc32 sys l entries d) l.blk_size i lt

  -- What stands before the second array.
  before-chained :
      (entries : Buf) (d : Device) (at m i : ℕ)
      → i < m
      → at + m ≤ l.second_start
      → shift (chained crc32 sys l entries d).byte at i ≡ shift d.byte at i
  before-chained entries d at m i lt le =
      let d4 = next_turn (next_turn (next_turn (next_turn d))) in
      written-kept
        (next_turn (written d4 (second_offset l) (new_header crc32 sys l entries d) l.blk_size))
        l.second_start entries l.array_size at m i lt (inl le)
      ∙ written-kept d4 (second_offset l) (new_header crc32 sys l entries d) l.blk_size at m i lt
          (inl (omega (arith, layout.header_after_entries)))

  first_header-chained :
      (entries : Buf) (d : Device) (i : ℕ)
      → i < l.blk_size
      → header_of l (chained crc32 sys l entries d) primary_gpt i ≡ header_of l d primary_gpt i
  first_header-chained entries d i lt =
      before-chained entries d l.blk_size l.blk_size i lt
        (omega (arith, layout.entries_after_header, layout.second_after_first))

  first_entries-chained :
      (entries : Buf) (d : Device) (i : ℕ)
      → i < l.array_size
      → first_entries l (chained crc32 sys l entries d) i ≡ first_entries l d i
  first_entries-chained entries d i lt =
      before-chained entries d l.first_start l.array_size i lt layout.second_after_first

  second_state-chained :
      (entries : Buf) (d : Device)
      → Fits crc32 l d
      → header_state crc32 (header_of l (chained crc32 sys l entries d) secondary_gpt)
        ≡ signature_state (header_of l d secondary_gpt)
  unfolding with_entries_crc
  second_state-chained entries d fits =
      let crc = crc32 (bytes_from entries 0 l.array_size) in
      let h = put_4_bytes (second_in_memory crc32 sys l d) partition_crc_offset crc in
      let kept : (i : ℕ) → i < 16 → h i ≡ header_of l d secondary_gpt i = λ i lt.
        put_4_bytes-outside (second_in_memory crc32 sys l d) partition_crc_offset crc i
          (inl (omega arith))
        ∙ overlay-start (first_in_memory crc32 sys l d) (header_of l d secondary_gpt) l.blk_size i
            (omega (arith, layout.block_holds_fields)) in
      let size =
        sealed-size crc32 h
        ∙ get_4_bytes-field h (header_of l d secondary_gpt) header_size_offset
            (λ i a b. kept i (omega arith)) in
      sym (
        header_state-cong crc32 (sealed crc32 h)
          (header_of l (chained crc32 sys l entries d) secondary_gpt) l.blk_size
          (omega (arith, layout.block_holds_fields)) (rw size fits.second.header_fits)
          (λ i lt. sym (second_header-chained entries d i lt)))
      ∙ header_state-sealed crc32 h bounded
      ∙ ap (λ (b : Bool). if b then gpt_ok else gpt_bad_signature)
          (same_bytes-cong h (header_of l d secondary_gpt) gpt_signature signature_size
            (λ i lt. kept i (omega arith)))

  pub chained-Chained :
      (entries : Buf) (d : Device)
      → Fits crc32 l d
      → Chained crc32 l entries d (chained crc32 sys l entries d)
  chained-Chained entries d fits = record {
    fits =
        Fits-kept crc32 l layout d (chained crc32 sys l entries d) fits refl
          (λ i field. first_header-chained entries d i (field-below l layout field))
          (λ i field.
            second_header-chained entries d i (field-below l layout field)
            ∙ new_header-keeps entries d i (field-below l layout field) (field-apart field))
          (λ i a b. first_header-chained entries d i (omega (arith, layout.block_holds_fields)))
          (λ i lt. first_entries-chained entries d i lt);
    first_state =
        header_state-kept crc32 l layout d (chained crc32 sys l entries d) primary_gpt
          fits.first.header_fits (λ i lt. first_header-chained entries d i lt);
    second_state = second_state-chained entries d fits;
    first_kept = λ i lt. first_entries-chained entries d i lt;
    second_new = λ i lt.
        written-new
          (next_turn (
            written (next_turn (next_turn (next_turn (next_turn d)))) (second_offset l)
              (new_header crc32 sys l entries d) l.blk_size))
          l.second_start entries l.array_size i lt;
    lun_kept = refl;
  }
