-- ===== src/Gpt/Update.antt =====
-- The safe update of gpt-utils.cpp: prepare_partitions and prepare_boot_update.
use device_blackshark_penros.Base.{
  Bool, List, Option, [], false, if◌then◌else◌, length, ltb, none, some, take, true, ℕ, ◌&&◌, ◌++◌,
  ◌+◌, ◌-◌, ◌==◌, ◌||◌, ◌∷◌,
}
use device_blackshark_penros.Gpt.Bytes.{codes}
use device_blackshark_penros.Gpt.Device.{
  Device, FilePath, Files, Io, System, abort, found, is_done, option_then, pure, require, ◌>>=◌,
  ◌>>◌,
}
use device_blackshark_penros.Gpt.Files.{
  blk_dev_file, boot_dev_dir, gpt_utils_is_ufs_device, gpt_utils_set_xbl_boot_partition,
  path_truncate_loc, xbl_backup, xbl_primary,
}
use device_blackshark_penros.Gpt.Header.{
  GptState, gpt_bad_crc, gpt_bad_signature, gpt_get_state, gpt_ok, gpt_set_state, primary_gpt,
  secondary_gpt,
}
use device_blackshark_penros.Gpt.Table.{
  BootChain, backup_boot, bak_ptn_name_ext, gpt2_set_boot_chain, is_left_out, normal_boot,
  ptn_swap_list, same_text, starts_with,
}

-- boot_update_stage.
pub data BootUpdateStage : Type 0 where
  update_main : BootUpdateStage
  update_backup : BootUpdateStage
  update_finalize : BootUpdateStage

abbrev pub stage_number : BootUpdateStage → ℕ
stage_number update_main = 1
stage_number update_backup = 2
stage_number update_finalize = 3

-- The stage that the states of the two tables call for: none where a CRC is wrong, or where both
-- signatures are.
abbrev pub internal_stage : GptState → GptState → Option BootUpdateStage
internal_stage gpt_ok gpt_ok = some update_main
internal_stage gpt_bad_signature gpt_ok = some update_backup
internal_stage gpt_ok gpt_bad_signature = some update_finalize
internal_stage gpt_bad_signature gpt_bad_signature = none
internal_stage gpt_bad_crc second = none
internal_stage first gpt_bad_crc = none

module _ (files : Files) where
  abbrev pub uses_xbl : Bool
  uses_xbl = gpt_utils_is_ufs_device files && files.exists xbl_primary && files.exists xbl_backup

  -- The switch of the boot LUN, where the device is UFS and XBL has a backup.
  unfoldable pub switch_xbl : BootChain → Io (Unit {0})
  unfolding gpt_utils_is_ufs_device gpt_utils_set_xbl_boot_partition
  switch_xbl chain = if uses_xbl then gpt_utils_set_xbl_boot_partition files chain else pure tt

module _ (crc32 : List ℕ → ℕ) (files : Files) (sys : System) where
  -- The first table is corrupted only where the second points at the backups.
  unfoldable pub corrupt_primary : Bool → Io (Unit {0})
  unfolding gpt_set_state
  corrupt_primary true = pure tt
  corrupt_primary false = do gpt_set_state crc32 sys primary_gpt gpt_bad_signature; pure tt

  unfoldable pub run_stage : BootUpdateStage → Io (Unit {0})
  unfolding switch_xbl corrupt_primary gpt2_set_boot_chain gpt_set_state
  run_stage update_main = do
    switch_xbl files backup_boot
    not_found ← gpt2_set_boot_chain crc32 sys (gpt_utils_is_ufs_device files) backup_boot
    corrupt_primary not_found
  run_stage update_backup = do
    switch_xbl files normal_boot
    gpt_set_state crc32 sys primary_gpt gpt_ok
    gpt_set_state crc32 sys secondary_gpt gpt_bad_signature
    pure tt
  run_stage update_finalize = do
    gpt2_set_boot_chain crc32 sys (gpt_utils_is_ufs_device files) normal_boot
    gpt_set_state crc32 sys secondary_gpt gpt_ok
    pure tt

  -- A stage that is already set is left; any other than the one called for is refused.
  unfoldable pub enter_stage : BootUpdateStage → BootUpdateStage → Io (Unit {0})
  unfolding run_stage
  enter_stage stage internal =
      if stage_number stage == stage_number internal - 1
      then pure tt
      else if stage_number stage == stage_number internal
      then run_stage stage
      else abort

  -- `done` is the answer 0, `failed` any other.
  unfoldable pub prepare_partitions : BootUpdateStage → FilePath → Io (Unit {0})
  unfolding gpt_get_state enter_stage
  prepare_partitions stage dev_path = do
    require (files.opens dev_path)
    gpt_prim ← gpt_get_state crc32 sys primary_gpt
    gpt_second ← gpt_get_state crc32 sys secondary_gpt
    internal ← found (internal_stage gpt_prim gpt_second)
    enter_stage stage internal

-- MAX_LUNS - 1.
abbrev pub last_lun : ℕ
last_lun = 25

-- The loop over the list looks for an entry that the path starts with.
unfoldable pub is_listed : FilePath → List FilePath → Bool
unfolding starts_with
is_listed lun_path [] = false
is_listed lun_path (lun ∷ luns) = starts_with lun lun_path || is_listed lun_path luns

-- add_lun_to_update_list: a list of 25 or more is not searched, and the path is added.
unfoldable pub add_lun_to_update_list : Files → FilePath → List FilePath → List FilePath
unfolding is_listed
add_lun_to_update_list files lun_path luns =
    if files.exists lun_path
    then (if ltb (length luns) last_lun && is_listed lun_path luns
        then luns
        else luns ++ lun_path ∷ [])
    else luns

-- The LUN of the backup of a partition.
unfoldable pub backup_lun : Files → List ℕ → Option FilePath
backup_lun files name =
    let backup = boot_dev_dir ++ codes "/" ++ name ++ bak_ptn_name_ext in
    if files.exists backup
    then option_then (files.link backup) (λ real_path.
      if ltb (length real_path) (path_truncate_loc + 1)
      then none
      else some (take path_truncate_loc real_path))
    else none

abbrev pub add_backup_lun : Files → Option FilePath → List FilePath → List FilePath
add_backup_lun files none luns = luns
add_backup_lun files (some path) luns = add_lun_to_update_list files path luns

unfoldable pub lun_step : Files → List ℕ → List FilePath → List FilePath
unfolding is_left_out backup_lun add_lun_to_update_list
lun_step files name luns =
    if is_left_out true name then luns else add_backup_lun files (backup_lun files name) luns

unfoldable pub luns_from : Files → List (List ℕ) → List FilePath → List FilePath
unfolding lun_step
luns_from files [] luns = luns
luns_from files (name ∷ names) luns = luns_from files names (lun_step files name luns)

-- The block devices by their paths, each with its system, and the boot LUN of all.
pub record Storage : Type 0 where
  pub disk : FilePath → Device
  pub told_lun : ℕ

module _ (crc32 : List ℕ → ℕ) (files : Files) (systems : FilePath → System) where
  -- Whether a device is prepared, and the storage after.
  unfoldable pub prepare_on : BootUpdateStage → FilePath → Storage → Bool × Storage
  unfolding prepare_partitions same_text
  prepare_on stage path storage =
      let (result, d) =
        prepare_partitions crc32 files (systems path) stage path
          (record (storage.disk path) { boot_lun = storage.told_lun }) in
      (
        is_done result,
        record {
          disk = λ p. if same_text path p then d else storage.disk p;
          told_lun = d.boot_lun;
        },
      )

  -- A device that fails does not stop the others.
  unfoldable pub prepare_each : BootUpdateStage → List FilePath → Storage → Bool × Storage
  unfolding prepare_on
  prepare_each stage [] storage = (true, storage)
  prepare_each stage (path ∷ paths) storage =
      let (prepared, storage') = prepare_on stage path storage in
      let (rest, storage'') = prepare_each stage paths storage' in (prepared && rest, storage'')

  -- Whether the answer is 0.
  unfoldable pub prepare_boot_update : BootUpdateStage → Storage → Bool × Storage
  unfolding gpt_utils_is_ufs_device prepare_each luns_from
  prepare_boot_update stage storage =
      if gpt_utils_is_ufs_device files
      then prepare_each stage (luns_from files ptn_swap_list []) storage
      else prepare_on stage blk_dev_file storage
