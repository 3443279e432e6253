-- ===== src/Gpt/Marking.antt =====
-- gpt_set_state of gpt-utils.cpp on a device with two tables: which header it changes, and how.
use device_blackshark_penros.Base.{List, arith, inr, refl, sym, ℕ, ◌<◌, ◌^◌, ◌≡◌, ◌≤◌}
use device_blackshark_penros.Gpt.Bytes.{Buf, overlay, overlay-outside, overlay-start, u32_mod}
use device_blackshark_penros.Gpt.Device.{
  Device, System, blk_rw, done, get_block_size, malloc, next_turn, reading,
}
use device_blackshark_penros.Gpt.Header.{
  GptInstance, GptState, gpt_bad_signature, gpt_get_state, gpt_ok, gpt_set_state, gpt_signature,
  header_offset, header_state, marked, primary_gpt, sealed, secondary_gpt, signature_size,
}
use device_blackshark_penros.Gpt.Layout.{Fits, IsLayout, Layout, at_of, header_of, header_size-le}
use device_blackshark_penros.Gpt.Reliable.{
  IsReliable, blk_rw-reads, blk_rw-writes, header_offset-finds, offset_of, written,
}
use device_blackshark_penros.Gpt.Sealing.{header_state-cong}

-- How a header is marked: only bytes of the signature change.
pub record Marks (mark : Buf → Buf) : Type 0 where
  pub keeps : (h : Buf) (i : ℕ) → 9 ≤ i → mark h i ≡ h i

abbrev pub mark_ok : Buf → Buf
mark_ok h = overlay h 0 gpt_signature signature_size

abbrev pub mark_bad : Buf → Buf
mark_bad h = overlay h 0 (λ i. 0) 1

pub mark_ok-Marks : Marks mark_ok
mark_ok-Marks = record {
  keeps = λ h i le. overlay-outside h 0 gpt_signature signature_size i (inr (omega arith));
}

pub mark_bad-Marks : Marks mark_bad
mark_bad-Marks = record { keeps = λ h i le. overlay-outside h 0 (λ i. 0) 1 i (inr (omega arith)) }

module _ (crc32 : List ℕ → ℕ) (sys : System) (l : Layout) where
  -- The header as it is read into memory that holds anything.
  abbrev pub read_of : ℕ → Device → GptInstance → Buf
  read_of t d gpt = overlay (sys.fresh t) 0 (header_of l d gpt) l.blk_size

  -- The device after a header was marked and written.
  abbrev pub remarked : (Buf → Buf) → GptInstance → Device → Device
  remarked mark gpt d =
      written (next_turn (next_turn d)) (at_of gpt l) (sealed crc32 (mark (read_of d.turn d gpt)))
        l.blk_size

module _ (sys : System) (l : Layout) (layout : IsLayout l)
    (reliable : IsReliable sys l.blk_size) where
  pub offset_of-eq :
      (gpt : GptInstance) (d : Device)
      → d.size ≡ l.size
      → offset_of sys l.blk_size reliable gpt d ≡ at_of gpt l
  offset_of-eq primary_gpt d whole = refl
  offset_of-eq secondary_gpt d whole = rw whole refl

  pub at_of-below : (gpt : GptInstance) → at_of gpt l < 2 ^ 63
  at_of-below primary_gpt = omega (arith, layout.block_is_word)
  at_of-below secondary_gpt = omega (arith, layout.size_is_offset)

  pub finds-header :
      (gpt : GptInstance) (d : Device)
      → d.size ≡ l.size
      → header_offset sys gpt l.blk_size d ≡ (done (at_of gpt l), d)
  finds-header gpt d whole =
      rw
        (
          header_offset-finds sys l.blk_size reliable gpt d
              (omega (arith, layout.header_after_entries)),
          offset_of-eq gpt d whole,
        )
        refl

module _ (crc32 : List ℕ → ℕ) (bounded : (bytes : List ℕ) → crc32 bytes < u32_mod) (sys : System)
    (l : Layout) (layout : IsLayout l) (reliable : IsReliable sys l.blk_size) where
  -- The transfers of a header.
  pub reads-header :
      (t : ℕ) (gpt : GptInstance) (d : Device)
      → blk_rw sys reading (at_of gpt l) (sys.fresh t) l.blk_size d
        ≡ (done (read_of crc32 sys l t d gpt), next_turn d)
  reads-header t gpt d =
      blk_rw-reads sys l.blk_size reliable (at_of gpt l) (sys.fresh t) l.blk_size d
        (at_of-below sys l layout reliable gpt) (omega (arith, layout.block_is_word))

  pub gpt_get_state-eq :
      (gpt : GptInstance) (d : Device)
      → Fits crc32 l d
      → gpt_get_state crc32 sys gpt d ≡ (done (header_state crc32 (header_of l d gpt)), next_turn d)
  unfolding gpt_get_state get_block_size malloc
  gpt_get_state-eq gpt d fits =
      let same =
        header_state-cong crc32 (header_of l d gpt) (read_of crc32 sys l d.turn d gpt) l.blk_size
          (omega (arith, layout.block_holds_fields)) (header_size-le crc32 l d fits gpt)
          (λ i lt. sym (overlay-start (sys.fresh d.turn) (header_of l d gpt) l.blk_size i lt)) in
      rw
        (
          reliable.sized d.turn,
          reliable.has_memory d.turn,
          finds-header sys l layout reliable gpt d fits.whole,
          reads-header d.turn gpt d,
          same,
        )
        refl

  gpt_set_state-eq :
      (gpt : GptInstance) (state : GptState) (mark : Buf → Buf) (d : Device)
      → d.size ≡ l.size
      → ((h : Buf) (d' : Device) → marked state h d' ≡ (done (mark h), d'))
      → gpt_set_state crc32 sys gpt state d ≡ (
        done (sealed crc32 (mark (read_of crc32 sys l d.turn d gpt))),
        remarked crc32 sys l mark gpt d,
      )
  unfolding gpt_set_state get_block_size malloc
  gpt_set_state-eq gpt state mark d whole marks =
      rw
        (
          reliable.sized d.turn,
          reliable.has_memory d.turn,
          finds-header sys l layout reliable gpt d whole,
          reads-header d.turn gpt d,
          marks (read_of crc32 sys l d.turn d gpt) (next_turn d),
          blk_rw-writes sys l.blk_size reliable (at_of gpt l)
              (sealed crc32 (mark (read_of crc32 sys l d.turn d gpt))) l.blk_size (next_turn d)
              (at_of-below sys l layout reliable gpt) (omega (arith, layout.block_is_word)),
        )
        refl

  -- The signature is set, or its first byte is cleared.
  pub sets_ok :
      (gpt : GptInstance) (d : Device)
      → d.size ≡ l.size
      → gpt_set_state crc32 sys gpt gpt_ok d ≡ (
        done (sealed crc32 (mark_ok (read_of crc32 sys l d.turn d gpt))),
        remarked crc32 sys l mark_ok gpt d,
      )
  sets_ok gpt d whole = gpt_set_state-eq gpt gpt_ok mark_ok d whole (λ h d'. unfold marked in refl)

  pub sets_bad :
      (gpt : GptInstance) (d : Device)
      → d.size ≡ l.size
      → gpt_set_state crc32 sys gpt gpt_bad_signature d ≡ (
        done (sealed crc32 (mark_bad (read_of crc32 sys l d.turn d gpt))),
        remarked crc32 sys l mark_bad gpt d,
      )
  sets_bad gpt d whole =
      gpt_set_state-eq gpt gpt_bad_signature mark_bad d whole (λ h d'. unfold marked in refl)
