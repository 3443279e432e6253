-- ===== src/Tests/GptUpdates.antt =====
-- The properties of gpt-utils at a small device.
use device_blackshark_penros.Base.{
  [], arith, false, inl, ltb, refl, some, true, ℕ, ◌*◌, ◌+◌, ◌-◌, ◌<◌, ◌≡◌,
}
use device_blackshark_penros.Gpt.Bytes.{Buf, bytes_from, codes, get_4_bytes, overlay}
use device_blackshark_penros.Gpt.Committing.{Committed, update_crc-commit}
use device_blackshark_penros.Gpt.Device.{Device, FilePath, done}
use device_blackshark_penros.Gpt.Disk.{GptDisk, gpt_disk_init_magic}
use device_blackshark_penros.Gpt.Effects.{Leaves}
use device_blackshark_penros.Gpt.Failsafe.{prepare_partitions-IsBootable}
use device_blackshark_penros.Gpt.Files.{get_dev_path_from_partition_name, gpt_utils_is_ufs_device}
use device_blackshark_penros.Gpt.Gathering.{Gathered, gpt_disk_get_disk_info-Gathered}
use device_blackshark_penros.Gpt.Guarding.{IsBootable}
use device_blackshark_penros.Gpt.Header.{
  gpt_bad_signature, gpt_ok, gpt_signature, header_size_offset, header_state, primary_gpt,
  secondary_gpt,
}
use device_blackshark_penros.Gpt.Layout.{array_of, first_entries, header_of, second_entries}
use device_blackshark_penros.Gpt.Luns.{IsLunList, update_luns-IsLunList}
use device_blackshark_penros.Gpt.Resealing.{IsDisk}
use device_blackshark_penros.Gpt.Searching.{Sought, gpt_pentry_seek-Sought}
use device_blackshark_penros.Gpt.Stages.{three_stages}
use device_blackshark_penros.Gpt.Staging.{Stands, lun_after}
use device_blackshark_penros.Gpt.Swapping.{Exchanged, gpt_boot_chain_swap-Exchanged}
use device_blackshark_penros.Gpt.Table.{
  backup_boot, gpt_boot_chain_swap, gpt_pentry_seek, normal_boot, pentries_array_size,
  pentries_start_offset, ptn_swap_list, swap_entries, with_entries_crc,
}
use device_blackshark_penros.Gpt.Update.{
  luns_from, prepare_partitions, update_backup, update_finalize, update_main,
}
use device_blackshark_penros.Tests.GptSamples.{
  sample_bytes, sample_device, sample_device-Fits, sample_entries, sample_files,
  sample_files-CanSwitch, sample_header, sample_layout, sample_layout-IsLayout, sample_system,
  sample_system-IsReliable, stopping_system, stopping_system-IsWhole, sum_of, sum_of-word,
}

abbrev mmc : FilePath
mmc = codes "/dev/block/sda"

abbrev abl_bak_first : Buf
abl_bak_first = swap_entries (array_of sample_layout sample_device) 0 128

-- The two entries of abl change places.
abl_swapped :
    gpt_boot_chain_swap
      (gpt_utils_is_ufs_device sample_files)
      512
      128
      (array_of sample_layout sample_device)
    ≡ some (false, abl_bak_first)
unfolding gpt_boot_chain_swap sample_bytes gpt_utils_is_ufs_device
abl_swapped = refl

first_at : (i : ℕ) → i < 512 → first_entries sample_layout sample_device i ≡ sample_entries i
unfolding sample_bytes
first_at i lt =
    let a : ltb (256 + i) 128 ≡ false = ground arith in
    let b : ltb (256 + i) 256 ≡ false = ground arith in
    let c : ltb (256 + i) 768 ≡ true = ground arith in
    let e : 256 + i - 256 ≡ i = omega arith in rw (a, b, c, e) refl

second_at : (i : ℕ) → i < 512 → second_entries sample_layout sample_device i ≡ sample_entries i
unfolding sample_bytes
second_at i lt =
    let a : ltb (768 + i) 128 ≡ false = ground arith in
    let b : ltb (768 + i) 256 ≡ false = ground arith in
    let c : ltb (768 + i) 768 ≡ false = ground arith in
    let d : ltb (768 + i) 1280 ≡ true = ground arith in
    let e : 768 + i - 768 ≡ i = omega arith in rw (a, b, c, d, e) refl

sample_device-Stands :
    Stands sum_of sample_layout gpt_ok gpt_ok sample_entries sample_entries 1 sample_device
unfolding sample_bytes header_state overlay bytes_from gpt_signature
sample_device-Stands = record {
  fits = sample_device-Fits;
  first_is = refl;
  second_is = refl;
  first_holds = λ i lt. first_at i lt;
  second_holds = λ i lt. second_at i lt;
  lun_is = refl;
}

three_stages_example :
    (main : Device) × (backup : Device) × (final : Device) × (prepare_partitions sum_of sample_files
        sample_system update_main mmc sample_device
      ≡ (done tt, main))
    × Stands sum_of sample_layout gpt_bad_signature gpt_ok sample_entries abl_bak_first
        (lun_after sample_files backup_boot 1)
        main
    × (prepare_partitions sum_of sample_files sample_system update_backup mmc main
        ≡ (done tt, backup))
    × Stands sum_of sample_layout gpt_ok gpt_bad_signature sample_entries abl_bak_first
        (lun_after sample_files normal_boot (lun_after sample_files backup_boot 1))
        backup
    × (prepare_partitions sum_of sample_files sample_system update_finalize mmc backup
        ≡ (done tt, final))
    × Stands sum_of sample_layout gpt_ok gpt_ok sample_entries sample_entries
        (lun_after sample_files normal_boot (lun_after sample_files backup_boot 1))
        final
three_stages_example =
    three_stages sum_of sum_of-word sample_files sample_files-CanSwitch sample_system sample_layout
      sample_layout-IsLayout sample_system-IsReliable mmc sample_entries sample_entries
      abl_bak_first 1 sample_device refl sample_device-Stands abl_swapped

prepare_partitions-IsBootable_example :
    Leaves
      (λ b d'. IsBootable sum_of sample_layout d')
      (IsBootable sum_of sample_layout)
      (prepare_partitions sum_of sample_files stopping_system update_main mmc sample_device)
prepare_partitions-IsBootable_example =
    prepare_partitions-IsBootable sum_of sum_of-word sample_files stopping_system sample_layout
      sample_layout-IsLayout stopping_system-IsWhole update_main mmc sample_device
      sample_device-Fits (inl sample_device-Stands.first_is)

gpt_boot_chain_swap-Exchanged_example :
    Exchanged 4 (true, sample_entries) (gpt_boot_chain_swap false (4 * 128) 128 sample_entries)
gpt_boot_chain_swap-Exchanged_example = gpt_boot_chain_swap-Exchanged false 4 sample_entries

gpt_pentry_seek-Sought_example :
    Sought
      (codes "abl")
      sample_entries
      512
      128
      (0 + 56)
      (gpt_pentry_seek (codes "abl") sample_entries 0 512 128)
gpt_pentry_seek-Sought_example =
    gpt_pentry_seek-Sought (codes "abl") sample_entries 0 512 128 (omega arith)

update_luns-IsLunList_example : IsLunList 21 (luns_from sample_files ptn_swap_list [])
update_luns-IsLunList_example = update_luns-IsLunList sample_files

abl_path : get_dev_path_from_partition_name sample_files (codes "abl") ≡ some mmc
unfolding get_dev_path_from_partition_name
abl_path = refl

same_header_sizes :
    get_4_bytes (header_of sample_layout sample_device secondary_gpt) header_size_offset
    ≡ get_4_bytes (header_of sample_layout sample_device primary_gpt) header_size_offset
unfolding sample_bytes overlay
same_header_sizes = refl

-- The disk of the device, with the entries of abl swapped in both tables.
abbrev changed_disk : GptDisk
changed_disk = record {
  hdr = sample_header 2;
  hdr_crc = 0;
  hdr_bak = sample_header 6;
  hdr_bak_crc = 0;
  pentry_arr = abl_bak_first;
  pentry_arr_bak = abl_bak_first;
  pentry_arr_size = 512;
  pentry_size = 128;
  pentry_arr_crc = 0;
  pentry_arr_bak_crc = 0;
  devpath = mmc;
  block_size = 128;
  is_initialized = gpt_disk_init_magic;
}

changed_disk-IsDisk : IsDisk sample_files sample_layout changed_disk
unfolding with_entries_crc overlay bytes_from pentries_start_offset pentries_array_size
changed_disk-IsDisk = record {
  ready = refl;
  opens = refl;
  first = record { header_fits = omega arith; starts = refl; sized = refl; entry_sized = refl };
  second = record { header_fits = omega arith; starts = refl; sized = refl; entry_sized = refl };
  sized = refl;
  same_header_size = refl;
}

gpt_disk_get_disk_info-Gathered_example :
    Gathered sum_of sample_files sample_system sample_layout (codes "abl") sample_device
gpt_disk_get_disk_info-Gathered_example =
    gpt_disk_get_disk_info-Gathered sample_files sample_system sample_layout sample_layout-IsLayout
      sample_system-IsReliable sum_of (codes "abl") mmc sample_device abl_path refl
      sample_device-Fits same_header_sizes

update_crc-commit_example :
    Committed sum_of sample_files sample_system sample_layout changed_disk sample_device
update_crc-commit_example =
    update_crc-commit sum_of sample_files sample_system sample_layout changed_disk sample_device
      sum_of-word sample_layout-IsLayout sample_system-IsReliable changed_disk-IsDisk refl
