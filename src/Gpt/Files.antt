-- ===== src/Gpt/Files.antt =====
-- The paths of gpt-utils.cpp: from a partition to its device, from a device to its scsi generic
-- node, the boot LUN, and the LUNs of an update.
use device_blackshark_penros.Base.{
  Bool, List, Option, [], drop, false, if◌then◌else◌, length, ltb, none, some, take, ℕ, ◌&&◌, ◌++◌,
  ◌+◌, ◌-◌, ◌||◌, ◌∷◌,
}
use device_blackshark_penros.Gpt.Bytes.{codes, map_some}
use device_blackshark_penros.Gpt.Device.{
  FilePath, Files, Io, done, failed, found, option_then, require, ◌>>=◌, ◌>>◌,
}
use device_blackshark_penros.Gpt.Table.{BootChain, backup_boot, normal_boot, same_text, starts_with}

-- PATH_TRUNCATE_LOC: "/dev/block/sda".
abbrev pub path_truncate_loc : ℕ
path_truncate_loc = 14

-- LUN_NAME_START_LOC: "/dev/block/".
abbrev pub lun_name_start_loc : ℕ
lun_name_start_loc = 11

abbrev pub blk_dev_file : FilePath
blk_dev_file = codes "/dev/block/mmcblk0"

abbrev pub boot_dev_dir : FilePath
boot_dev_dir = codes "/dev/block/bootdevice/by-name"

abbrev pub xbl_primary : FilePath
xbl_primary = codes "/dev/block/bootdevice/by-name/xbl"

abbrev pub xbl_backup : FilePath
xbl_backup = codes "/dev/block/bootdevice/by-name/xblbak"

abbrev pub xbl_ab_primary : FilePath
xbl_ab_primary = codes "/dev/block/bootdevice/by-name/xbl_a"

abbrev pub xbl_ab_secondary : FilePath
xbl_ab_secondary = codes "/dev/block/bootdevice/by-name/xbl_b"

-- The boot device ends in ".ufshc", and more stands before it.
unfoldable pub gpt_utils_is_ufs_device : Files → Bool
unfolding same_text
gpt_utils_is_ufs_device files =
    if ltb (length files.boot_device) 7
    then false
    else same_text (drop (length files.boot_device - 6) files.boot_device) (codes ".ufshc")

-- The first entry whose name starts with "sg": no such name starts with a dot.
unfoldable pub scsi_node : List FilePath → Option FilePath
unfolding starts_with
scsi_node [] = none
scsi_node (name ∷ names) =
    let rest = scsi_node names in
    if starts_with (codes ".") name
    then rest
    else if starts_with (codes "sg") name
    then some (codes "/dev/" ++ name)
    else rest

-- The directory of a LUN, whose path the link gives.
abbrev pub scsi_dir : FilePath → FilePath
scsi_dir real_path =
    codes "/sys/block/"
    ++ drop lun_name_start_loc (take path_truncate_loc real_path)
    ++ codes "/device/scsi_generic"

unfoldable pub get_scsi_node_from_bootdevice : Files → FilePath → Option FilePath
unfolding scsi_node
get_scsi_node_from_bootdevice files bootdev_path =
    option_then (files.link bootdev_path) (λ real_path.
      if ltb (length real_path) (path_truncate_loc + 1)
      then none
      else option_then (files.entries (scsi_dir real_path)) scsi_node)

-- The LUN of a boot chain, and the device of its XBL.
abbrev pub boot_lun_id : BootChain → ℕ
boot_lun_id normal_boot = 1
boot_lun_id backup_boot = 2

abbrev pub first_existing : Files → FilePath → FilePath → Option FilePath
first_existing files p q =
    if files.exists p then some p else if files.exists q then some q else none

abbrev pub xbl_device : Files → BootChain → Option FilePath
xbl_device files backup_boot = first_existing files xbl_backup xbl_ab_secondary
xbl_device files normal_boot = first_existing files xbl_primary xbl_ab_primary

-- Both of a pair of XBL partitions are there.
abbrev pub has_xbl_pair : Files → Bool
has_xbl_pair files =
    (files.exists xbl_primary && files.exists xbl_backup)
    || (files.exists xbl_ab_primary && files.exists xbl_ab_secondary)

abbrev pub set_boot_lun : Files → FilePath → ℕ → Io (Unit {0})
set_boot_lun files node lun d =
    if files.takes_boot_lun node lun then (done tt, record d { boot_lun = lun }) else (failed, d)

unfoldable pub gpt_utils_set_xbl_boot_partition : Files → BootChain → Io (Unit {0})
unfolding get_scsi_node_from_bootdevice
gpt_utils_set_xbl_boot_partition files chain = do
  boot_dev ← found (xbl_device files chain)
  require (has_xbl_pair files)
  node ← found (get_scsi_node_from_bootdevice files boot_dev)
  set_boot_lun files node (boot_lun_id chain)

-- The path of the device that holds a partition.
unfoldable pub get_dev_path_from_partition_name : Files → List ℕ → Option FilePath
unfolding gpt_utils_is_ufs_device
get_dev_path_from_partition_name files partname =
    let path = boot_dev_dir ++ codes "/" ++ partname in
    if gpt_utils_is_ufs_device files
    then (if files.exists path then map_some (take path_truncate_loc) (files.link path) else none)
    else some blk_dev_file

-- The map of gpt_utils_get_partition_map: to each device, the partitions it holds.
unfoldable pub add_partition :
    FilePath → List ℕ → List (FilePath × List (List ℕ)) → List (FilePath × List (List ℕ))
unfolding same_text
add_partition path partname [] = (path, partname ∷ []) ∷ []
add_partition path partname ((p, names) ∷ rest) =
    if same_text path p
    then (p, names ++ partname ∷ []) ∷ rest
    else (p, names) ∷ add_partition path partname rest

abbrev pub add_found :
    List ℕ → Option FilePath → List (FilePath × List (List ℕ)) → List (FilePath × List (List ℕ))
add_found partname none partition_map = partition_map
add_found partname (some path) partition_map = add_partition path partname partition_map

unfoldable pub add_partitions :
    Files → List (List ℕ) → List (FilePath × List (List ℕ)) → List (FilePath × List (List ℕ))
unfolding add_partition get_dev_path_from_partition_name
add_partitions files [] partition_map = partition_map
add_partitions files (partname ∷ ptn_list) partition_map =
    add_partitions files ptn_list
      (add_found partname (get_dev_path_from_partition_name files partname) partition_map)

unfoldable pub gpt_utils_get_partition_map :
    Files
    → List (List ℕ)
    → List (FilePath × List (List ℕ))
    → Option (List (FilePath × List (List ℕ)))
unfolding add_partitions
gpt_utils_get_partition_map files [] partition_map = none
gpt_utils_get_partition_map files (partname ∷ ptn_list) partition_map =
    some (add_partitions files (partname ∷ ptn_list) partition_map)
