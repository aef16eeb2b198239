-- ===== src/Nvs.antt =====
-- lib/nvs_manager.c and include/nvs_manager.h, as built with CONFIG_ZBEAM_NVS_ENABLED.
use zbeam.Base.{not, ℕ, zero, suc, ◌+◌, Bool, List, ◌∷◌, ltb, if◌then◌else◌}
use zbeam.Base.Int.{ℤ, pos, negsuc, ltb_ℤ}
use zbeam.Kernel.{Call, delete_id, enodev}

abbrev pub id_ramp_floor : ℕ
id_ramp_floor = 1

abbrev pub id_ramp_ceiling : ℕ
id_ramp_ceiling = 2

abbrev pub id_mem_brightness : ℕ
id_mem_brightness = 3

abbrev pub id_ui_mode : ℕ
id_ui_mode = 4

abbrev pub id_memory_mode : ℕ
id_memory_mode = 5

abbrev pub id_manual_mem_level : ℕ
id_manual_mem_level = 6

abbrev pub id_hybrid_timeout : ℕ
id_hybrid_timeout = 7

abbrev pub id_thermal_limit : ℕ
id_thermal_limit = 8

abbrev pub id_temp_calib_offset : ℕ
id_temp_calib_offset = 9

abbrev pub id_batt_calib_offset : ℕ
id_batt_calib_offset = 10

abbrev pub id_ramp_style : ℕ
id_ramp_style = 11

-- The fields of `struct nvs_fs` and of `struct zms_fs` that the program sets.
pub record FsLayout : Type 0 where
  pub offset : ℕ
  pub sector_size : ℕ
  pub sector_count : ℕ

-- The flash device: whether it is ready, where its partition `storage_partition` is, and
-- `flash_get_page_info_by_offs`, which gives a return code and the size of the page.
pub record Flash : Type 0 where
  pub ready : Bool
  pub partition_offset : ℕ
  pub page_info : ℕ → ℤ × ℕ

-- The test `rc == 0` of a return code.
abbrev pub is_ok : ℤ → Bool
is_ok rc = elim rc [ pos n ↦ ltb n 1 | negsuc n ↦ Bool.false ]

-- The return code and `fs`. `mount` is `nvs_mount`.
unfoldable pub nvs_init_fs : Flash → (mount : FsLayout → ℤ) → FsLayout → ℤ × FsLayout
nvs_init_fs flash mount fs =
    let placed = record fs { offset = flash.partition_offset } in
    let (rc, size) = flash.page_info placed.offset in
    let sized = record placed { sector_size = size; sector_count = 4 } in
    if not flash.ready
    then (enodev, fs)
    else if not (is_ok rc)
    then (rc, placed)
    else (mount sized, sized)

-- The return code of `nvs_write_byte`, from that of `nvs_write`.
unfoldable pub write_status : ℤ → ℤ
write_status rc = if ltb_ℤ rc (pos 0) then rc else pos 0

-- `nvs_read_byte(id, &value)`: the return code and the new value of the variable, which keeps
-- `old` where nothing is read. `driver` is `nvs_read` of one byte.
unfoldable pub nvs_read_byte : (ℕ → ℤ × ℕ) → ℕ → ℕ → ℤ × ℕ
nvs_read_byte driver id old =
    let (rc, byte) = driver id in if ltb_ℤ (pos 0) rc then (pos 0, byte) else (rc, old)

-- `for (i = first; i < first + n; i++) nvs_delete(&fs, i)`, newest call first.
unfoldable pub delete_ids : ℕ → ℕ → List Call → List Call
delete_ids first zero calls = calls
delete_ids first (suc n) calls = delete_ids (first + 1) n (delete_id first ∷ calls)

unfoldable pub nvs_wipe_all : List Call → List Call
unfolding delete_ids
nvs_wipe_all calls = delete_ids 0 20 calls
