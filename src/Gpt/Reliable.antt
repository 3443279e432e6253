-- ===== src/Gpt/Reliable.antt =====
-- gpt-utils.cpp on a system that does what it is asked: each transfer moves all of its bytes.
use device_blackshark_penros.Base.{
  ap, arith, false, leb, refl, some, true, ℕ, ◌-◌, ◌<◌, ◌^◌, ◌≡◌, ◌≤◌,
}
use device_blackshark_penros.Gpt.Bytes.{Buf, overlay, shift, u32_mod}
use device_blackshark_penros.Gpt.Device.{
  Device, System, blk_rw, calloc, done, end_offset, get_block_size, is_negative, least, malloc,
  moves, next_turn, reading, writing,
}
use device_blackshark_penros.Gpt.Header.{GptInstance, header_offset, primary_gpt, secondary_gpt}

-- A device whose block has blk_size bytes and whose calls succeed.
pub record IsReliable (sys : System) (blk_size : ℕ) : Type 0 where
  pub sized : (t : ℕ) → sys.block_size t ≡ some blk_size
  pub has_memory : (t : ℕ) → sys.allocates t ≡ true
  pub finds_end : (t : ℕ) → sys.seeks_end t ≡ true
  pub moves_all : (t : ℕ) → sys.transfer t ≡ moves u32_mod

-- The device after a write of n bytes.
abbrev pub written : Device → ℕ → Buf → ℕ → Device
written d offset from n = record d { byte = overlay d.byte offset from n }

module _ (sys : System) (blk_size : ℕ) (reliable : IsReliable sys blk_size) where
  pub blk_rw-reads :
      (offset : ℕ) (buf : Buf) (len : ℕ) (d : Device)
      → offset < 2 ^ 63
      → len ≤ u32_mod
      → blk_rw sys reading offset buf len d
        ≡ (done (overlay buf 0 (shift d.byte offset) len), next_turn d)
  unfolding blk_rw
  blk_rw-reads offset buf len d low fits =
      let nonnegative : is_negative offset ≡ false = ground arith in
      let all : least u32_mod len ≡ len = ground arith in
      rw (nonnegative, reliable.moves_all d.turn, all) refl

  pub blk_rw-writes :
      (offset : ℕ) (buf : Buf) (len : ℕ) (d : Device)
      → offset < 2 ^ 63
      → len ≤ u32_mod
      → blk_rw sys writing offset buf len d ≡ (done buf, written (next_turn d) offset buf len)
  unfolding blk_rw
  blk_rw-writes offset buf len d low fits =
      let nonnegative : is_negative offset ≡ false = ground arith in
      let all : least u32_mod len ≡ len = ground arith in
      rw (nonnegative, reliable.moves_all d.turn, all) refl

  pub get_block_size-gives : (d : Device) → get_block_size sys d ≡ (done blk_size, d)
  unfolding get_block_size
  get_block_size-gives d = rw (reliable.sized d.turn) refl

  pub malloc-gives : (d : Device) → malloc sys d ≡ (done (sys.fresh d.turn), d)
  unfolding malloc
  malloc-gives d = rw (reliable.has_memory d.turn) refl

  pub calloc-gives : (d : Device) → calloc sys d ≡ (done (λ i. 0), d)
  unfolding calloc
  calloc-gives d = rw (reliable.has_memory d.turn) refl

  pub end_offset-gives :
      (size : ℕ) (d : Device)
      → d.size ≡ size
      → blk_size ≤ size
      → end_offset sys blk_size d ≡ (done (size - blk_size), d)
  unfolding end_offset
  end_offset-gives size d whole fits =
      let inside : leb blk_size d.size ≡ true = ground arith in
      let same : d.size - blk_size ≡ size - blk_size = ap (λ (s : ℕ). s - blk_size) whole in
      rw (reliable.finds_end d.turn, inside, same) refl

  -- Where a header stands.
  abbrev pub offset_of : GptInstance → Device → ℕ
  offset_of primary_gpt d = blk_size
  offset_of secondary_gpt d = d.size - blk_size

  pub header_offset-finds :
      (gpt : GptInstance) (d : Device)
      → blk_size ≤ d.size
      → header_offset sys gpt blk_size d ≡ (done (offset_of gpt d), d)
  unfolding header_offset end_offset
  header_offset-finds primary_gpt d fits = refl
  header_offset-finds secondary_gpt d fits =
      let inside : leb blk_size d.size ≡ true = ground arith in
      rw (reliable.finds_end d.turn, inside) refl

  pub offset-low :
      (gpt : GptInstance) (d : Device)
      → blk_size ≤ d.size
      → d.size < 2 ^ 63
      → offset_of gpt d < 2 ^ 63
  offset-low primary_gpt d fits small = omega arith
  offset-low secondary_gpt d fits small = omega arith
