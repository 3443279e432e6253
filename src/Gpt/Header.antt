-- ===== src/Gpt/Header.antt =====
-- The GPT header of gpt-utils.cpp: gpt_get_state and gpt_set_state.
use device_blackshark_penros.Base.{Bool, List, if◌then◌else◌, suc, true, zero, ℕ, ◌&&◌, ◌==◌}
use device_blackshark_penros.Gpt.Bytes.{Buf, bytes_from, get_4_bytes, overlay, put_4_bytes}
use device_blackshark_penros.Gpt.Device.{
  Io, System, abort, blk_rw, end_offset, get_block_size, malloc, pure, reading, writing, ◌>>=◌,
}

-- gpt_state.
pub data GptState : Type 0 where
  gpt_ok : GptState
  gpt_bad_signature : GptState
  gpt_bad_crc : GptState

-- gpt_instance.
pub data GptInstance : Type 0 where
  primary_gpt : GptInstance
  secondary_gpt : GptInstance

abbrev pub header_size_offset : ℕ
header_size_offset = 12

abbrev pub header_crc_offset : ℕ
header_crc_offset = 16

abbrev pub pentries_offset : ℕ
pentries_offset = 72

abbrev pub partition_count_offset : ℕ
partition_count_offset = 80

abbrev pub pentry_size_offset : ℕ
pentry_size_offset = 84

abbrev pub partition_crc_offset : ℕ
partition_crc_offset = 88

-- GPT_SIGNATURE with the byte that ends the text, which `sizeof` counts.
unfoldable pub gpt_signature : Buf
gpt_signature i =
    if i == 0
    then b'E'
    else if i == 1
    then b'F'
    else if i == 2
    then b'I'
    else if i == 3
    then b' '
    else if i == 4
    then b'P'
    else if i == 5
    then b'A'
    else if i == 6
    then b'R'
    else if i == 7
    then b'T'
    else 0

abbrev pub signature_size : ℕ
signature_size = 9

-- `memcmp` of n bytes, for equality.
unfoldable pub same_bytes : Buf → Buf → ℕ → Bool
same_bytes f g zero = true
same_bytes f g (suc n) = f n == g n && same_bytes f g n

-- The header whose CRC field is cleared, of which the header's CRC is taken.
unfoldable pub cleared : Buf → Buf
unfolding put_4_bytes
cleared h = put_4_bytes h header_crc_offset 0

module _ (crc32 : List ℕ → ℕ) where
  unfoldable pub header_crc : Buf → ℕ
  unfolding cleared get_4_bytes
  header_crc h = crc32 (bytes_from (cleared h) 0 (get_4_bytes h header_size_offset))

  -- The state of a header: a CRC that is not right hides a signature that is not right.
  unfoldable pub header_state : Buf → GptState
  unfolding header_crc same_bytes
  header_state h =
      if header_crc h == get_4_bytes h header_crc_offset
      then (if same_bytes h gpt_signature signature_size then gpt_ok else gpt_bad_signature)
      else gpt_bad_crc

  -- The header with its CRC taken again.
  unfoldable pub sealed : Buf → Buf
  unfolding header_crc
  sealed h = put_4_bytes (cleared h) header_crc_offset (header_crc h)

unfoldable pub header_offset : System → GptInstance → ℕ → Io ℕ
header_offset sys primary_gpt blk_size = pure blk_size
header_offset sys secondary_gpt blk_size = end_offset sys blk_size

-- The header marked as of a state: GPT_BAD_CRC is no state to set.
unfoldable pub marked : GptState → Buf → Io Buf
marked gpt_ok h = pure (overlay h 0 gpt_signature signature_size)
marked gpt_bad_signature h = pure (overlay h 0 (λ i. 0) 1)
marked gpt_bad_crc h = abort

module _ (crc32 : List ℕ → ℕ) (sys : System) where
  unfoldable pub gpt_get_state : GptInstance → Io GptState
  unfolding header_offset
  gpt_get_state gpt = do
    blk_size ← get_block_size sys
    header ← malloc sys
    offset ← header_offset sys gpt blk_size
    header ← blk_rw sys reading offset header blk_size
    pure (header_state crc32 header)

  unfoldable pub gpt_set_state : GptInstance → GptState → Io Buf
  unfolding header_offset marked sealed
  gpt_set_state gpt state = do
    blk_size ← get_block_size sys
    header ← malloc sys
    offset ← header_offset sys gpt blk_size
    header ← blk_rw sys reading offset header blk_size
    header ← marked state header
    blk_rw sys writing offset (sealed crc32 header) blk_size
