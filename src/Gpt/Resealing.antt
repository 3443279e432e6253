-- ===== src/Gpt/Resealing.antt =====
-- gpt_disk_update_crc of gpt-utils.cpp: the headers that it seals.
use device_blackshark_penros.Base.{
  Bool, List, ap, arith, if◌then◌else◌, inl, inr, refl, some, sym, true, ℕ, ◌<◌, ◌∙◌, ◌≡◌, ◌≤◌, ◌⊎◌,
}
use device_blackshark_penros.Gpt.Bytes.{
  Buf, bytes_from, get_4_bytes, get_4_bytes-field, get_4_bytes-put, put_4_bytes,
  put_4_bytes-outside, u32_mod,
}
use device_blackshark_penros.Gpt.Device.{Files}
use device_blackshark_penros.Gpt.Disk.{GptDisk, cleared_with, crc_of, gpt_disk_update_crc, is_ready}
use device_blackshark_penros.Gpt.Header.{
  cleared, gpt_bad_signature, gpt_ok, gpt_signature, header_crc, header_crc_offset,
  header_size_offset, header_state, partition_crc_offset, sealed, signature_size,
}
use device_blackshark_penros.Gpt.Layout.{Describes, Describes-cong, Layout}
use device_blackshark_penros.Gpt.Relinking.{apart, early, field-apart, signature_state}
use device_blackshark_penros.Gpt.Sealing.{header_state-sealed, same_bytes-cong, sealed-outside}
use device_blackshark_penros.Gpt.Table.{with_entries_crc}

-- A disk in memory with the tables of a layout, whose entries may have been changed since.
pub record IsDisk (files : Files) (l : Layout) (disk : GptDisk) : Type 0 where
  pub ready : is_ready disk ≡ true
  pub opens : files.opens disk.devpath ≡ true
  pub first : Describes l l.first_start disk.hdr
  pub second : Describes l l.second_start disk.hdr_bak
  pub sized : disk.pentry_arr_size ≡ l.array_size
  pub same_header_size :
      get_4_bytes disk.hdr_bak header_size_offset ≡ get_4_bytes disk.hdr header_size_offset

module _ (crc32 : List ℕ → ℕ) where
  -- A header with the CRC of an array, and its own.
  abbrev pub resealed : Buf → Buf → ℕ → Buf
  resealed h arr size = with_entries_crc crc32 h arr size

  resealed-keeps :
      (h arr : Buf) (size i : ℕ) → (i < 16) ⊎ ((20 ≤ i) × (i < 88)) → resealed h arr size i ≡ h i
  unfolding with_entries_crc
  resealed-keeps h arr size i place =
      sealed-outside crc32 _ i (apart place)
      ∙ put_4_bytes-outside h partition_crc_offset _ i (inl (early place))

  pub resealed-Describes :
      (l : Layout) (start : ℕ) (h arr : Buf) (size : ℕ)
      → Describes l start h
      → Describes l start (resealed h arr size)
  resealed-Describes l start h arr size described =
      Describes-cong l start (resealed h arr size) h described
        (λ i field. resealed-keeps h arr size i (field-apart field))

  pub resealed-state :
      (h arr : Buf) (size : ℕ)
      → ((bytes : List ℕ) → crc32 bytes < u32_mod)
      → header_state crc32 (resealed h arr size) ≡ signature_state h
  unfolding with_entries_crc
  resealed-state h arr size bounded =
      let crc = crc32 (bytes_from arr 0 size) in
      header_state-sealed crc32 (put_4_bytes h partition_crc_offset crc) bounded
      ∙ ap (λ (b : Bool). if b then gpt_ok else gpt_bad_signature)
          (same_bytes-cong (put_4_bytes h partition_crc_offset crc) h gpt_signature signature_size
            (λ i lt. put_4_bytes-outside h partition_crc_offset crc i (inl (omega arith))))

  pub resealed-entries_crc :
      (h arr : Buf) (size : ℕ)
      → ((bytes : List ℕ) → crc32 bytes < u32_mod)
      → get_4_bytes (resealed h arr size) partition_crc_offset ≡ crc32 (bytes_from arr 0 size)
  unfolding with_entries_crc
  resealed-entries_crc h arr size bounded =
      let crc = crc32 (bytes_from arr 0 size) in
      get_4_bytes-field (resealed h arr size) (put_4_bytes h partition_crc_offset crc)
        partition_crc_offset (λ i a b. sealed-outside crc32 _ i (inr (omega arith)))
      ∙ get_4_bytes-put h partition_crc_offset crc (bounded _)

  header_size-put :
      (h : Buf) (crc : ℕ)
      → get_4_bytes (put_4_bytes h partition_crc_offset crc) header_size_offset
        ≡ get_4_bytes h header_size_offset
  header_size-put h crc =
      get_4_bytes-field (put_4_bytes h partition_crc_offset crc) h header_size_offset
        (λ i a b. put_4_bytes-outside h partition_crc_offset crc i (inl (omega arith)))

  -- Where both headers have one length, each is sealed.
  pub gpt_disk_update_crc-eq :
      (files : Files) (l : Layout) (disk : GptDisk)
      → IsDisk files l disk
      → (disk' : GptDisk) × (gpt_disk_update_crc crc32 disk ≡ some disk')
        × (disk'.hdr ≡ resealed disk.hdr disk.pentry_arr disk.pentry_arr_size)
        × (disk'.hdr_bak ≡ resealed disk.hdr_bak disk.pentry_arr_bak disk.pentry_arr_size)
        × (disk'.pentry_arr ≡ disk.pentry_arr)
        × (disk'.pentry_arr_bak ≡ disk.pentry_arr_bak)
        × (disk'.devpath ≡ disk.devpath)
        × (disk'.is_initialized ≡ disk.is_initialized)
  unfolding gpt_disk_update_crc with_entries_crc sealed header_crc cleared
  gpt_disk_update_crc-eq files l disk is =
      let arr_crc = crc_of crc32 disk.pentry_arr disk.pentry_arr_size in
      let bak_crc = crc_of crc32 disk.pentry_arr_bak disk.pentry_arr_size in
      let hdr = cleared_with crc32 disk.hdr arr_crc in
      let hdr_bak = cleared_with crc32 disk.hdr_bak bak_crc in
      let size =
        get_4_bytes (put_4_bytes disk.hdr partition_crc_offset arr_crc) header_size_offset in
      let sizes =
        header_size-put disk.hdr arr_crc
        ∙ sym is.same_header_size
        ∙ sym (header_size-put disk.hdr_bak bak_crc) in
      (
        record disk {
          pentry_arr_crc = arr_crc;
          pentry_arr_bak_crc = bak_crc;
          hdr = put_4_bytes hdr header_crc_offset (crc_of crc32 hdr size);
          hdr_bak = put_4_bytes hdr_bak header_crc_offset (crc_of crc32 hdr_bak size);
          hdr_crc = crc_of crc32 hdr size;
          hdr_bak_crc = crc_of crc32 hdr_bak size;
        },
        rw is.ready refl,
        refl,
        ap (λ (n : ℕ). put_4_bytes hdr_bak header_crc_offset (crc_of crc32 hdr_bak n)) sizes,
        refl,
        refl,
        refl,
        refl,
      )
