-- ===== src/Gpt/Table.antt =====
-- The partition entries of gpt-utils.cpp: the search by name, the swap of the boot chain, and
-- gpt2_set_boot_chain.
use device_blackshark_penros.Base.{
  Bool, List, Option, [], drop, false, if◌then◌else◌, length, ltb, map, none, some, suc, true, zero,
  ℕ, ◌%◌, ◌&&◌, ◌*◌, ◌+◌, ◌-◌, ◌==◌, ◌||◌, ◌∷◌,
}
use device_blackshark_penros.Gpt.Bytes.{
  Buf, bytes_from, codes, get_4_bytes, get_8_bytes, map_some, overlay, put_4_bytes, shift, u32_mod,
  u64_mod,
}
use device_blackshark_penros.Gpt.Device.{
  Io, System, blk_rw, calloc, done, end_offset, endless, get_block_size, malloc, pure, reading,
  require, writing, ◌>>=◌, ◌>>◌,
}
use device_blackshark_penros.Gpt.Header.{
  partition_count_offset, partition_crc_offset, pentries_offset, pentry_size_offset, sealed,
}

abbrev pub partition_name_offset : ℕ
partition_name_offset = 56

-- PTN_ENTRY_SIZE: what the swap copies, whatever size the table says that an entry has.
abbrev pub ptn_entry_size : ℕ
ptn_entry_size = 128

-- Half of MAX_GPT_NAME_SIZE.
abbrev pub max_name_length : ℕ
max_name_length = 36

abbrev pub bak_ptn_name_ext : List ℕ
bak_ptn_name_ext = b'b' ∷ b'a' ∷ b'k' ∷ []

-- `name8`: every second byte of a name, up to the first that is zero.
unfoldable pub name_at : Buf → ℕ → ℕ → List ℕ
name_at h at zero = []
name_at h at (suc n) = if h at == 0 then [] else h at ∷ name_at h (at + 2) n

-- `strncmp(text, name, strlen(text))` is 0.
unfoldable pub starts_with : List ℕ → List ℕ → Bool
starts_with [] name = true
starts_with (c ∷ text) [] = false
starts_with (c ∷ text) (n ∷ name) = c == n && starts_with text name

-- `strcmp` is 0.
unfoldable pub same_text : List ℕ → List ℕ → Bool
same_text [] [] = true
same_text [] (b ∷ bs) = false
same_text (a ∷ as_) [] = false
same_text (a ∷ as_) (b ∷ bs) = a == b && same_text as_ bs

-- The name of an entry is the partition's, or that of its backup.
unfoldable pub names_partition : List ℕ → List ℕ → Bool
unfolding starts_with same_text
names_partition ptn_name name =
    starts_with ptn_name name
    && (same_text (drop (length ptn_name) name) []
        || same_text (drop (length ptn_name) name) bak_ptn_name_ext)

-- The loop over the entries, from the name of one on: `none` where the fuel runs out, which is a
-- loop that does not end.
unfoldable pub seek_from : List ℕ → Buf → ℕ → ℕ → ℕ → ℕ → Option (Option ℕ)
unfolding name_at names_partition
seek_from ptn_name h pentries_end pentry_size zero pentry_name = none
seek_from ptn_name h pentries_end pentry_size (suc fuel) pentry_name =
    let rest = seek_from ptn_name h pentries_end pentry_size fuel (pentry_name + pentry_size) in
    if ltb pentry_name pentries_end
    then (if names_partition ptn_name (name_at h pentry_name max_name_length)
        then some (some (pentry_name - partition_name_offset))
        else rest)
    else some none

-- The offset of the first entry that the name fits, from an offset on.
unfoldable pub gpt_pentry_seek : List ℕ → Buf → ℕ → ℕ → ℕ → Option (Option ℕ)
unfolding seek_from
gpt_pentry_seek ptn_name h pentries_start pentries_end pentry_size =
    seek_from ptn_name h pentries_end pentry_size (suc pentries_end)
      (pentries_start + partition_name_offset)

-- The three `memcpy` of the swap.
unfoldable pub swap_entries : Buf → ℕ → ℕ → Buf
unfolding overlay
swap_entries h ptn_entry ptn_bak_entry =
    overlay (overlay h ptn_entry (shift h ptn_bak_entry) ptn_entry_size) ptn_bak_entry
      (shift h ptn_entry) ptn_entry_size

abbrev pub ptn_xbl : List ℕ
ptn_xbl = codes "xbl"

abbrev pub ptn_multiimgoem : List ℕ
ptn_multiimgoem = codes "multiimgoem"

abbrev pub ptn_multiimgqti : List ℕ
ptn_multiimgqti = codes "multiimgqti"

abbrev pub ptn_swap_list : List (List ℕ)
ptn_swap_list = map codes (
    "xbl" ∷ "xbl_config" ∷ "multiimgoem" ∷ "multiimgqti" ∷ "abl" ∷ "aop" ∷ "cmnlib" ∷ "cmnlib64"
    ∷ "devcfg" ∷ "dsp" ∷ "dtbo" ∷ "featenabler" ∷ "hyp" ∷ "imagefv" ∷ "keymaster" ∷ "multiimgoem"
    ∷ "qupfw" ∷ "tz" ∷ "uefisecapp" ∷ "vbmeta" ∷ "vbmeta_system" ∷ [])

-- The names whose swap is left to the boot LUN, or is not made.
unfoldable pub is_left_out : Bool → List ℕ → Bool
unfolding starts_with
is_left_out is_ufs name =
    (is_ufs && starts_with ptn_xbl name)
    || starts_with ptn_multiimgoem name
    || starts_with ptn_multiimgqti name

-- Whether a name is in the table twice, and the table with the two entries swapped.
unfoldable pub swap_partition : List ℕ → ℕ → ℕ → Buf → Option (Option Buf)
unfolding gpt_pentry_seek swap_entries
swap_partition name pentries_end pentry_size h =
    elim (gpt_pentry_seek name h 0 pentries_end pentry_size) [
      | none ↦ none
      | some none ↦ some none
      | some (some ptn_entry) ↦
          elim (gpt_pentry_seek name h (ptn_entry + pentry_size) pentries_end pentry_size) [
            | none ↦ none
            | some none ↦ some none
            | some (some ptn_bak_entry) ↦ some (some (swap_entries h ptn_entry ptn_bak_entry))
          ]
    ]

-- The state of the loop over the list: whether no backup was found yet, and the entries.
abbrev pub swap_result : Bool × Buf → Option Buf → Bool × Buf
swap_result s none = s
swap_result s (some h) = (false, h)

unfoldable pub swap_step : Bool → ℕ → ℕ → List ℕ → Bool × Buf → Option (Bool × Buf)
unfolding is_left_out swap_partition
swap_step is_ufs pentries_end pentry_size name (not_found, h) =
    if is_left_out is_ufs name
    then some (not_found, h)
    else map_some (swap_result (not_found, h)) (swap_partition name pentries_end pentry_size h)

unfoldable pub swap_all : Bool → ℕ → ℕ → List (List ℕ) → Bool × Buf → Option (Bool × Buf)
unfolding swap_step
swap_all is_ufs pentries_end pentry_size [] s = some s
swap_all is_ufs pentries_end pentry_size (name ∷ names) s =
    elim (swap_step is_ufs pentries_end pentry_size name s) [
      | none ↦ none
      | some s' ↦ swap_all is_ufs pentries_end pentry_size names s'
    ]

-- The answer 1 of the source is `true`.
unfoldable pub gpt_boot_chain_swap : Bool → ℕ → ℕ → Buf → Option (Bool × Buf)
unfolding swap_all
gpt_boot_chain_swap is_ufs pentries_end pentry_size h =
    swap_all is_ufs pentries_end pentry_size ptn_swap_list (true, h)

-- boot_chain.
pub data BootChain : Type 0 where
  normal_boot : BootChain
  backup_boot : BootChain

-- Where a header says that the entries stand.
unfoldable pub pentries_start_offset : Buf → ℕ → ℕ
unfolding get_8_bytes
pentries_start_offset header blk_size = get_8_bytes header pentries_offset * blk_size % u64_mod

unfoldable pub pentries_array_size : Buf → ℕ
unfolding get_4_bytes
pentries_array_size header =
    get_4_bytes header partition_count_offset * get_4_bytes header pentry_size_offset % u32_mod

module _ {ℓ} {A : Type ℓ} where
  -- A loop that does not end ends the call too.
  abbrev pub looped : Option A → Io A
  looped (some a) d = (done a, d)
  looped none d = (endless, d)

-- The entries that the second table is given: where no backup is found, none.
unfoldable pub chain_entries : Bool → BootChain → ℕ → ℕ → Buf → Option (Option Buf)
unfolding gpt_boot_chain_swap
chain_entries is_ufs normal_boot pentries_end pentry_size h = some (some h)
chain_entries is_ufs backup_boot pentries_end pentry_size h =
    map_some (λ s. if s.0 then none else some s.1)
      (gpt_boot_chain_swap is_ufs pentries_end pentry_size h)

module _ (crc32 : List ℕ → ℕ) where
  -- The header with the CRC of the entries and its own.
  unfoldable pub with_entries_crc : Buf → Buf → ℕ → Buf
  unfolding sealed put_4_bytes
  with_entries_crc header pentries size =
      sealed crc32 (put_4_bytes header partition_crc_offset (crc32 (bytes_from pentries 0 size)))

module _ (crc32 : List ℕ → ℕ) (sys : System) where
  -- The second table as read from the first, and written.
  unfoldable pub write_second_table : ℕ → ℕ → ℕ → Buf → Option Buf → Io Bool
  unfolding with_entries_crc
  write_second_table offset blk_size size header none = pure true
  write_second_table offset blk_size size header (some pentries) = do
    blk_rw sys writing offset (with_entries_crc crc32 header pentries size) blk_size
    blk_rw sys writing (pentries_start_offset header blk_size) pentries size
    pure false

  -- Whether no backup was found, where the call does not fail.
  unfoldable pub gpt2_set_boot_chain : Bool → BootChain → Io Bool
  unfolding write_second_table pentries_start_offset pentries_array_size chain_entries
  gpt2_set_boot_chain is_ufs boot = do
    blk_size ← get_block_size sys
    header ← malloc sys
    offset ← end_offset sys blk_size
    first ← blk_rw sys reading blk_size header blk_size
    let size = pentries_array_size first
    pentries ← calloc sys
    pentries ← blk_rw sys reading (pentries_start_offset first blk_size) pentries size
    require (get_4_bytes first partition_crc_offset == crc32 (bytes_from pentries 0 size))
    second ← blk_rw sys reading offset first blk_size
    changed ←
        looped (chain_entries is_ufs boot size (get_4_bytes first pentry_size_offset) pentries)
    write_second_table offset blk_size size second changed
