-- ===== src/Gpt/Remarking.antt =====
-- What gpt_set_state of gpt-utils.cpp makes of a device with two tables.
use device_blackshark_penros.Base.{
  List, arith, if◌then◌else◌, inl, inr, refl, sym, ℕ, ◌<◌, ◌∙◌, ◌≡◌, ◌≤◌, ◌⊎◌,
}
use device_blackshark_penros.Gpt.Bytes.{Buf, get_4_bytes, get_4_bytes-field, overlay-start, u32_mod}
use device_blackshark_penros.Gpt.Device.{Device, System, next_turn}
use device_blackshark_penros.Gpt.Header.{
  GptInstance, GptState, gpt_bad_signature, gpt_ok, gpt_signature, header_size_offset, header_state,
  primary_gpt, same_bytes, sealed, secondary_gpt, signature_size,
}
use device_blackshark_penros.Gpt.Keeping.{
  Fits-kept, first_entries-kept, header-kept, header_state-kept, other, second_entries-kept,
  written-new,
}
use device_blackshark_penros.Gpt.Layout.{
  Fits, IsFieldByte, IsLayout, Layout, at_of, field-below, first_entries, header_of, header_size-le,
  second_entries,
}
use device_blackshark_penros.Gpt.Marking.{Marks, read_of, remarked}
use device_blackshark_penros.Gpt.Sealing.{
  header_state-cong, header_state-sealed, sealed-outside, sealed-size,
}

-- What a call that marks a header does: the device keeps its layout and both arrays, the header has
-- the new state, and the other header its old one.
pub record Remarked (crc32 : List ℕ → ℕ) (l : Layout) (gpt : GptInstance) (state : GptState)
    (d d' : Device) : Type 0 where
  pub fits : Fits crc32 l d'
  pub own_state : header_state crc32 (header_of l d' gpt) ≡ state
  pub other_state :
      header_state crc32 (header_of l d' (other gpt))
      ≡ header_state crc32 (header_of l d (other gpt))
  pub first_kept : (i : ℕ) → i < l.array_size → first_entries l d' i ≡ first_entries l d i
  pub second_kept : (i : ℕ) → i < l.array_size → second_entries l d' i ≡ second_entries l d i
  pub lun_kept : d'.boot_lun ≡ d.boot_lun

module _ (crc32 : List ℕ → ℕ) (bounded : (bytes : List ℕ) → crc32 bytes < u32_mod) (sys : System)
    (l : Layout) (layout : IsLayout l) where
  -- The header in memory, and the device after.
  abbrev before : GptInstance → Device → Buf
  before gpt d = read_of crc32 sys l d.turn d gpt

  abbrev after : (Buf → Buf) → GptInstance → Device → Device
  after mark gpt d = remarked crc32 sys l mark gpt d

  abbrev written_header : GptInstance → (Buf → Buf) → Device → Buf
  written_header gpt mark d = sealed crc32 (mark (before gpt d))

  -- The header that was written, and the bytes of it that marking and sealing leave alone.
  header-after :
      (gpt : GptInstance) (mark : Buf → Buf) (d : Device) (i : ℕ)
      → i < l.blk_size
      → header_of l (after mark gpt d) gpt i ≡ sealed crc32 (mark (before gpt d)) i
  header-after gpt mark d i lt =
      written-new (next_turn (next_turn d)) (at_of gpt l) (sealed crc32 (mark (before gpt d)))
        l.blk_size i lt

  mark-keeps :
      (gpt : GptInstance) (mark : Buf → Buf) (d : Device) (i : ℕ)
      → Marks mark
      → 9 ≤ i
      → i < l.blk_size
      → mark (before gpt d) i ≡ header_of l d gpt i
  mark-keeps gpt mark d i marks low high =
      marks.keeps (before gpt d) i low
      ∙ overlay-start (sys.fresh d.turn) (header_of l d gpt) l.blk_size i high

  header-remarked :
      (gpt : GptInstance) (mark : Buf → Buf) (d : Device) (i : ℕ)
      → Marks mark
      → 9 ≤ i
      → i < 92
      → (i < 16) ⊎ (20 ≤ i)
      → header_of l (after mark gpt d) gpt i ≡ header_of l d gpt i
  header-remarked gpt mark d i marks low high place =
      header-after gpt mark d i (omega (arith, layout.block_holds_fields))
      ∙ sealed-outside crc32 (mark (before gpt d)) i place
      ∙ mark-keeps gpt mark d i marks low (omega (arith, layout.block_holds_fields))

  field-remarked :
      (gpt : GptInstance) (mark : Buf → Buf) (d : Device) (i : ℕ)
      → Marks mark
      → IsFieldByte i
      → header_of l (after mark gpt d) gpt i ≡ header_of l d gpt i
  field-remarked gpt mark d i marks (inl (a, b)) =
      header-remarked gpt mark d i marks (omega arith) (omega arith) (inl b)
  field-remarked gpt mark d i marks (inr (a, b)) =
      header-remarked gpt mark d i marks (omega arith) (omega arith) (inr (omega arith))

  -- The state of the header that was written is that of its signature.
  own_state-remarked :
      (gpt : GptInstance) (mark : Buf → Buf) (d : Device)
      → Marks mark
      → get_4_bytes (header_of l d gpt) header_size_offset ≤ l.blk_size
      → header_state crc32 (header_of l (after mark gpt d) gpt) ≡ (
          if same_bytes (mark (before gpt d)) gpt_signature signature_size
          then gpt_ok
          else gpt_bad_signature)
  own_state-remarked gpt mark d marks within =
      let h = mark (before gpt d) in
      let size =
        sealed-size crc32 h
        ∙ get_4_bytes-field h (header_of l d gpt) header_size_offset (λ i a b.
          mark-keeps gpt mark d i marks (omega arith) (omega (arith, layout.block_holds_fields))) in
      sym (
        header_state-cong crc32 (sealed crc32 h) (header_of l (after mark gpt d) gpt) l.blk_size
          (omega (arith, layout.block_holds_fields)) (rw size within)
          (λ i lt. sym (header-after gpt mark d i lt)))
      ∙ header_state-sealed crc32 h bounded

  remarked-Fits :
      (gpt : GptInstance) (mark : Buf → Buf) (d : Device)
      → Marks mark
      → Fits crc32 l d
      → Fits crc32 l (after mark gpt d)
  remarked-Fits primary_gpt mark d marks fits =
      Fits-kept crc32 l layout d (after mark primary_gpt d) fits refl
        (λ i field. field-remarked primary_gpt mark d i marks field)
        (λ i field.
          header-kept l layout primary_gpt (next_turn (next_turn d))
            (written_header primary_gpt mark d) i (field-below l layout field))
        (λ i a b. header-remarked primary_gpt mark d i marks (omega arith) b (inr (omega arith)))
        (λ i lt.
          first_entries-kept l layout primary_gpt (next_turn (next_turn d))
            (written_header primary_gpt mark d) i lt)
  remarked-Fits secondary_gpt mark d marks fits =
      Fits-kept crc32 l layout d (after mark secondary_gpt d) fits refl
        (λ i field.
          header-kept l layout secondary_gpt (next_turn (next_turn d))
            (written_header secondary_gpt mark d) i (field-below l layout field))
        (λ i field. field-remarked secondary_gpt mark d i marks field)
        (λ i a b.
          header-kept l layout secondary_gpt (next_turn (next_turn d))
            (written_header secondary_gpt mark d) i (omega (arith, layout.block_holds_fields)))
        (λ i lt.
          first_entries-kept l layout secondary_gpt (next_turn (next_turn d))
            (written_header secondary_gpt mark d) i lt)

  pub Remarked-at :
      (gpt : GptInstance) (mark : Buf → Buf) (state : GptState) (d : Device)
      → Marks mark
      → ((h : Buf)
          → (if same_bytes (mark h) gpt_signature signature_size then gpt_ok else gpt_bad_signature)
            ≡ state)
      → Fits crc32 l d
      → Remarked crc32 l gpt state d (after mark gpt d)
  Remarked-at gpt mark state d marks signs fits =
      let new = written_header gpt mark d in
      let d'' = next_turn (next_turn d) in
      record {
        fits = remarked-Fits gpt mark d marks fits;
        own_state =
            own_state-remarked gpt mark d marks (header_size-le crc32 l d fits gpt)
            ∙ signs (before gpt d);
        other_state =
            header_state-kept crc32 l layout d (after mark gpt d) (other gpt)
              (header_size-le crc32 l d fits (other gpt))
              (λ i lt. header-kept l layout gpt d'' new i lt);
        first_kept = λ i lt. first_entries-kept l layout gpt d'' new i lt;
        second_kept = λ i lt. second_entries-kept l layout gpt d'' new i lt;
        lun_kept = refl;
      }
