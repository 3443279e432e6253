-- ===== src/Gpt/Disk.antt =====
-- The gpt_disk of gpt-utils.cpp: both tables of a device in memory.
use device_blackshark_penros.Base.{Bool, List, Option, if◌then◌else◌, ltb, none, not, some, ℕ, ◌==◌}
use device_blackshark_penros.Gpt.Bytes.{Buf, bytes_from, get_4_bytes, put_4_bytes}
use device_blackshark_penros.Gpt.Device.{
  FilePath, Files, Io, System, blk_rw, calloc, done, found, get_block_size, malloc, pure, reading,
  require, writing, ◌>>=◌, ◌>>◌,
}
use device_blackshark_penros.Gpt.Files.{get_dev_path_from_partition_name}
use device_blackshark_penros.Gpt.Header.{
  GptInstance, header_crc_offset, header_offset, header_size_offset, partition_crc_offset,
  pentry_size_offset, primary_gpt, secondary_gpt,
}
use device_blackshark_penros.Gpt.Table.{gpt_pentry_seek, pentries_array_size, pentries_start_offset}

abbrev pub gpt_disk_init_magic : ℕ
gpt_disk_init_magic = 0xABCD

-- gpt_disk. The pointers are not null once gpt_disk_get_disk_info has succeeded.
pub record GptDisk : Type 0 where
  pub hdr : Buf
  pub hdr_crc : ℕ
  pub hdr_bak : Buf
  pub hdr_bak_crc : ℕ
  pub pentry_arr : Buf
  pub pentry_arr_bak : Buf
  pub pentry_arr_size : ℕ
  pub pentry_size : ℕ
  pub pentry_arr_crc : ℕ
  pub pentry_arr_bak_crc : ℕ
  pub devpath : FilePath
  pub block_size : ℕ
  pub is_initialized : ℕ

abbrev pub is_ready : GptDisk → Bool
is_ready disk = disk.is_initialized == gpt_disk_init_magic

module _ (sys : System) where
  -- A block size of 0 is an error.
  unfoldable pub gpt_get_block_size : Io ℕ
  gpt_get_block_size = do
    blk_size ← get_block_size sys
    require (not (blk_size == 0))
    pure blk_size

  -- What the source's function answers: 0 where the size is not known.
  abbrev pub block_size_or_zero : Io ℕ
  block_size_or_zero d = elim (sys.block_size d.turn) [
    | none ↦ (done 0, d)
    | some blk_size ↦ (done blk_size, d)
  ]

  -- No header is written to the first byte.
  unfoldable pub gpt_set_header : Buf → GptInstance → Io Buf
  unfolding gpt_get_block_size header_offset
  gpt_set_header gpt_header instance_ = do
    blk_size ← gpt_get_block_size
    offset ← header_offset sys instance_ blk_size
    require (ltb 0 offset)
    blk_rw sys writing offset gpt_header blk_size

  -- Where there is no memory, the transfer to the null pointer fails.
  unfoldable pub gpt_get_header : Files → FilePath → GptInstance → Io Buf
  unfolding gpt_get_block_size header_offset
  gpt_get_header files devpath instance_ = do
    require (files.opens devpath)
    blk_size ← gpt_get_block_size
    hdr ← malloc sys
    offset ← header_offset sys instance_ blk_size
    blk_rw sys reading offset hdr blk_size

  unfoldable pub gpt_get_pentry_arr : Buf → Io Buf
  unfolding gpt_get_block_size pentries_start_offset pentries_array_size
  gpt_get_pentry_arr hdr = do
    blk_size ← gpt_get_block_size
    pentry_arr ← calloc sys
    blk_rw sys reading (pentries_start_offset hdr blk_size) pentry_arr (pentries_array_size hdr)

  unfoldable pub gpt_set_pentry_arr : Buf → Buf → Io Buf
  unfolding gpt_get_block_size pentries_start_offset pentries_array_size
  gpt_set_pentry_arr hdr arr = do
    blk_size ← gpt_get_block_size
    blk_rw sys writing (pentries_start_offset hdr blk_size) arr (pentries_array_size hdr)

-- gpt_disk_get_pentry: no entry, or an entry in one of the tables.
unfoldable pub gpt_disk_get_pentry : GptDisk → List ℕ → GptInstance → Option (Option ℕ)
unfolding gpt_pentry_seek
gpt_disk_get_pentry disk partname instance_ =
    if is_ready disk
    then gpt_pentry_seek partname
        (elim instance_ [ primary_gpt ↦ disk.pentry_arr | secondary_gpt ↦ disk.pentry_arr_bak ]) 0
        disk.pentry_arr_size disk.pentry_size
    else some none

module _ (crc32 : List ℕ → ℕ) where
  -- The CRC of a buffer's first bytes, as many as the header of the first table says.
  abbrev pub crc_of : Buf → ℕ → ℕ
  crc_of h size = crc32 (bytes_from h 0 size)

  -- The first header with the CRC of the first entries, its own cleared.
  abbrev pub cleared_with : Buf → ℕ → Buf
  cleared_with h entries_crc =
      put_4_bytes (put_4_bytes h partition_crc_offset entries_crc) header_crc_offset 0

  unfoldable pub gpt_disk_update_crc : GptDisk → Option GptDisk
  gpt_disk_update_crc disk =
      let arr_crc = crc_of disk.pentry_arr disk.pentry_arr_size in
      let arr_bak_crc = crc_of disk.pentry_arr_bak disk.pentry_arr_size in
      let hdr = cleared_with disk.hdr arr_crc in
      let hdr_bak = cleared_with disk.hdr_bak arr_bak_crc in
      let size =
        get_4_bytes (put_4_bytes disk.hdr partition_crc_offset arr_crc) header_size_offset in
      let hdr_crc = crc_of hdr size in
      let hdr_bak_crc = crc_of hdr_bak size in
      if is_ready disk
      then some (record disk {
        pentry_arr_crc = arr_crc;
        pentry_arr_bak_crc = arr_bak_crc;
        hdr = put_4_bytes hdr header_crc_offset hdr_crc;
        hdr_bak = put_4_bytes hdr_bak header_crc_offset hdr_bak_crc;
        hdr_crc = hdr_crc;
        hdr_bak_crc = hdr_bak_crc;
      })
      else none

module _ (crc32 : List ℕ → ℕ) (files : Files) (sys : System) where
  unfoldable pub gpt_disk_get_disk_info : List ℕ → Io GptDisk
  unfolding gpt_get_header gpt_get_pentry_arr get_dev_path_from_partition_name
  gpt_disk_get_disk_info dev = do
    devpath ← found (get_dev_path_from_partition_name files dev)
    hdr ← gpt_get_header sys files devpath primary_gpt
    let size = get_4_bytes hdr header_size_offset
    hdr_bak ← gpt_get_header sys files devpath secondary_gpt
    require (files.opens devpath)
    pentry_arr ← gpt_get_pentry_arr sys hdr
    pentry_arr_bak ← gpt_get_pentry_arr sys hdr_bak
    blk_size ← block_size_or_zero sys
    pure (record {
      hdr = hdr;
      hdr_crc = crc_of crc32 hdr size;
      hdr_bak = hdr_bak;
      hdr_bak_crc = crc_of crc32 hdr_bak size;
      pentry_arr = pentry_arr;
      pentry_arr_bak = pentry_arr_bak;
      pentry_arr_size = pentries_array_size hdr;
      pentry_size = get_4_bytes hdr pentry_size_offset;
      pentry_arr_crc = get_4_bytes hdr partition_crc_offset;
      pentry_arr_bak_crc = get_4_bytes hdr_bak partition_crc_offset;
      devpath = devpath;
      block_size = blk_size;
      is_initialized = gpt_disk_init_magic;
    })

-- Both headers and both arrays, in the order of the source.
unfoldable pub gpt_disk_commit : Files → System → GptDisk → Io (Unit {0})
unfolding gpt_set_header gpt_set_pentry_arr
gpt_disk_commit files sys disk = do
  require (is_ready disk)
  require (files.opens disk.devpath)
  gpt_set_header sys disk.hdr primary_gpt
  gpt_set_pentry_arr sys disk.hdr disk.pentry_arr
  gpt_set_header sys disk.hdr_bak secondary_gpt
  gpt_set_pentry_arr sys disk.hdr_bak disk.pentry_arr_bak
  pure tt
