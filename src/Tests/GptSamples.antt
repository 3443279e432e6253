-- ===== src/Tests/GptSamples.antt =====
-- A small device with two partition tables, at which the properties of gpt-utils are tried.
use device_blackshark_penros.Base.{
  Bool-cases, List, [], arith, false, if◌then◌else◌, inl, inr, ltb, refl, some, true, ℕ, ◌%◌, ◌+◌,
  ◌-◌, ◌<◌, ◌==◌, ◌||◌, ◌∷◌, ◌≡◌, ◌≤◌, ◌⊎◌,
}
use device_blackshark_penros.Gpt.Bytes.{Buf, bytes_from, codes, overlay, put_4_bytes, u32_mod}
use device_blackshark_penros.Gpt.Device.{Device, Files, System, moves, rw_fails}
use device_blackshark_penros.Gpt.Effects.{IsWhole}
use device_blackshark_penros.Gpt.Files.{get_scsi_node_from_bootdevice}
use device_blackshark_penros.Gpt.Header.{gpt_signature}
use device_blackshark_penros.Gpt.Layout.{Fits, IsLayout, Layout}
use device_blackshark_penros.Gpt.Reliable.{IsReliable}
use device_blackshark_penros.Gpt.Staging.{CanSwitch, xbl_of}
use device_blackshark_penros.Gpt.Table.{
  BootChain, backup_boot, normal_boot, pentries_array_size, pentries_start_offset, with_entries_crc,
}

-- The sum of the bytes, in place of a CRC.
abbrev pub sum_of : List ℕ → ℕ
sum_of [] = 0
sum_of (b ∷ bs) = (b + sum_of bs) % u32_mod

pub sum_of-word : (bytes : List ℕ) → sum_of bytes < u32_mod
sum_of-word [] = omega arith
sum_of-word (b ∷ bs) = omega arith

-- Blocks of 128 bytes; four entries of 128 bytes in each table.
abbrev pub sample_layout : Layout
sample_layout = record {
  blk_size = 128;
  size = 1408;
  first_start = 256;
  second_start = 768;
  array_size = 512;
  entry_size = 128;
}

pub sample_layout-IsLayout : IsLayout sample_layout
sample_layout-IsLayout = record {
  block_holds_fields = omega arith;
  block_is_word = omega arith;
  array_is_word = omega arith;
  size_is_offset = omega arith;
  entries_after_header = omega arith;
  second_after_first = omega arith;
  header_after_entries = omega arith;
}

-- The entries abl, ablbak, and two that are empty.
abbrev pub sample_entries : Buf
sample_entries i =
    if i == 56 || i == 184
    then b'a'
    else if i == 58 || i == 186
    then b'b'
    else if i == 60 || i == 188
    then b'l'
    else if i == 190
    then b'b'
    else if i == 192
    then b'a'
    else if i == 194
    then b'k'
    else 0

-- A header of 92 bytes whose entries start at a block.
abbrev pub sample_fields : ℕ → Buf
sample_fields block =
    put_4_bytes
      (put_4_bytes (put_4_bytes (put_4_bytes (overlay (λ i. 0) 0 gpt_signature 9) 12 92) 72 block)
        80 4)
      84 128

abbrev pub sample_header : ℕ → Buf
sample_header block = with_entries_crc sum_of (sample_fields block) sample_entries 512

unfoldable pub sample_bytes : Buf
unfolding with_entries_crc
sample_bytes i =
    if ltb i 128
    then 0
    else if ltb i 256
    then sample_header 2 (i - 128)
    else if ltb i 768
    then sample_entries (i - 256)
    else if ltb i 1280
    then sample_entries (i - 768)
    else if ltb i 1408
    then sample_header 6 (i - 1280)
    else 0

abbrev pub sample_device : Device
sample_device = record { size = 1408; byte = sample_bytes; turn = 0; boot_lun = 1 }

-- A system that does what it is asked, and one whose sixth transfer and all after it fail.
abbrev pub sample_system : System
sample_system = record {
  block_size = λ t. some 128;
  allocates = λ t. true;
  fresh = λ t i. 204;
  transfer = λ t. moves u32_mod;
  seeks_end = λ t. true;
}

abbrev pub stopping_system : System
stopping_system = record sample_system {
  transfer = λ t. if ltb t 6 then moves u32_mod else rw_fails;
}

pub sample_system-IsReliable : IsReliable sample_system 128
sample_system-IsReliable = record {
  sized = λ t. refl;
  has_memory = λ t. refl;
  finds_end = λ t. refl;
  moves_all = λ t. refl;
}

moved :
    (t n : ℕ)
    → (ltb t 6 ≡ true) ⊎ (ltb t 6 ≡ false)
    → (if ltb t 6 then moves u32_mod else rw_fails) ≡ moves n
    → u32_mod ≤ n
moved t n (inl early_) e = ground arith
moved t n (inr late) e = absurd (ground arith)

pub stopping_system-IsWhole : IsWhole stopping_system 128
stopping_system-IsWhole = record {
  sized = λ t b e. ground arith;
  whole = λ t n e. moved t n (Bool-cases (ltb t 6)) e;
}

-- A UFS device whose XBL has a backup.
abbrev pub sample_files : Files
sample_files = record {
  boot_device = codes "1d84000.ufshc";
  exists = λ p. true;
  link = λ p. some (codes "/dev/block/sda12");
  entries = λ p. some (codes "sg3" ∷ []);
  opens = λ p. true;
  takes_boot_lun = λ p lun. true;
}

switch_node :
    (chain : BootChain)
    → get_scsi_node_from_bootdevice sample_files (xbl_of chain) ≡ some (codes "/dev/sg3")
unfolding get_scsi_node_from_bootdevice
switch_node normal_boot = refl
switch_node backup_boot = refl

pub sample_files-CanSwitch : CanSwitch sample_files
unfolding get_scsi_node_from_bootdevice
sample_files-CanSwitch = record {
  switches = λ chain used. (codes "/dev/sg3", switch_node chain, refl);
}

pub sample_device-Fits : Fits sum_of sample_layout sample_device
unfolding sample_bytes pentries_start_offset pentries_array_size overlay bytes_from
sample_device-Fits = record {
  whole = refl;
  first = record { header_fits = omega arith; starts = refl; sized = refl; entry_sized = refl };
  second = record { header_fits = omega arith; starts = refl; sized = refl; entry_sized = refl };
  entries_crc = refl;
}
