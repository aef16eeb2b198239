-- ===== src/Storage.antt =====
-- lib/storage_manager.c and include/storage_manager.h. Zephyr's ZMS is a parameter.
pub mod Persist
pub mod Refused
use zbeam.Base.{
  ℕ, zero, suc, ◌+◌, ◌*◌, ◌/◌, ◌%◌, ◌<◌, Bool, not, true, false, List, [], ◌∷◌, ◌++◌, length,
  get_or, ltb, if◌then◌else◌,
}
use zbeam.Base.Int.{ℤ, pos, ltb_ℤ}
use zbeam.Kernel.{enodev, enoent}
use zbeam.Nvs.{FsLayout, Flash, is_ok}

abbrev pub storage_id_system_config : ℕ
storage_id_system_config = 1

abbrev pub storage_id_pwm_levels : ℕ
storage_id_pwm_levels = 2

abbrev pub storage_id_user_prefs : ℕ
storage_id_user_prefs = 3

pub record SystemConfig : Type 0 where
  pub click_timeout_ms : ℕ  -- uint32_t
  pub hold_duration_ms : ℕ  -- uint32_t
  pub last_brightness : ℕ  -- uint8_t
  pub reserved : ℕ × ℕ × ℕ  -- uint8_t[3]

-- A `uint32_t` in memory, the lowest byte first, and the one that stands at an offset.
abbrev pub word_bytes : ℕ → List ℕ
word_bytes n = n % 256 ∷ n / 256 % 256 ∷ n / 65536 % 256 ∷ n / 16777216 % 256 ∷ []

abbrev pub word_at : List ℕ → ℕ → ℕ
word_at m i =
    get_or m i 0
    + 256 * get_or m (i + 1) 0
    + 65536 * get_or m (i + 2) 0
    + 16777216 * get_or m (i + 3) 0

-- The 12 bytes of the struct, which has no padding, and the struct of 12 bytes.
unfoldable pub config_bytes : SystemConfig → List ℕ
config_bytes c =
    word_bytes c.click_timeout_ms
    ++ word_bytes c.hold_duration_ms
    ++ (c.last_brightness ∷ c.reserved.0 ∷ c.reserved.1 ∷ c.reserved.2 ∷ [])

unfoldable pub config_of : List ℕ → SystemConfig
config_of m = record {
  click_timeout_ms = word_at m 0;
  hold_duration_ms = word_at m 4;
  last_brightness = get_or m 8 0;
  reserved = (get_or m 9 0, get_or m 10 0, get_or m 11 0);
}

-- The values that the fields' types admit.
pub record Fits (c : SystemConfig) : Type 0 where
  pub click : c.click_timeout_ms < 4294967296
  pub hold : c.hold_duration_ms < 4294967296

-- The calls of ZMS, on what the flash holds. A read gives the bytes that it puts at the start of the
-- caller's buffer.
pub record Zms (Content : Type 0) : Type 0 where
  pub mount : FsLayout → Content → ℤ × Content
  pub write : (id : ℕ) → List ℕ → Content → ℤ × Content
  pub read : (id len : ℕ) → Content → ℤ × List ℕ
  pub delete : (id : ℕ) → Content → ℤ × Content

-- `fs` and `initialized`.
pub record Storage (Content : Type 0) : Type 0 where
  pub fs : FsLayout
  pub content : Content
  pub initialized : Bool

-- The bytes written over the start of the buffer.
abbrev pub overlay : List ℕ → List ℕ → List ℕ
overlay [] buffer = buffer
overlay (b ∷ bs) [] = []
overlay (b ∷ bs) (old ∷ buffer) = b ∷ overlay bs buffer

module _ {Content : Type 0} (zms : Zms Content) where
  unfoldable pub storage_init : Flash → Storage Content → ℤ × Storage Content
  storage_init flash s =
      let placed = record s.fs { offset = flash.partition_offset } in
      let (rc, size) = flash.page_info placed.offset in
      let sized = record placed { sector_size = size; sector_count = 2 } in
      let (mounted, content) = zms.mount sized s.content in
      if not flash.ready
      then (enodev, s)
      else if not (is_ok rc)
      then (rc, record s { fs = placed })
      else if not (is_ok mounted)
      then (mounted, record s { fs = sized; content = content })
      else (pos 0, record { fs = sized; content = content; initialized = true })

  unfoldable pub storage_write : (id : ℕ) → List ℕ → Storage Content → ℤ × Storage Content
  storage_write id bytes s =
      if s.initialized
      then (let (ret, content) = zms.write id bytes s.content in
          (ret, record s { content = content }))
      else (enodev, s)

  -- The return code and the caller's buffer.
  unfoldable pub storage_read :
      (id : ℕ) → (buffer : List ℕ) → (len : ℕ) → Storage Content → ℤ × List ℕ
  storage_read id buffer len s =
      if s.initialized
      then (let (ret, bytes) = zms.read id len s.content in (ret, overlay bytes buffer))
      else (enodev, buffer)

  unfoldable pub storage_save_system_config : SystemConfig → Storage Content → ℤ × Storage Content
  storage_save_system_config config s =
      storage_write storage_id_system_config (config_bytes config) s

  -- The return code and the caller's struct.
  unfoldable pub storage_load_system_config :
      (config : SystemConfig) → Storage Content → ℤ × SystemConfig
  storage_load_system_config config s =
      let (ret, memory) = storage_read storage_id_system_config (config_bytes config) 12 s in
      (if ltb_ℤ (pos 0) ret then pos 0 else enoent, config_of memory)

  unfoldable pub storage_wipe_all : Storage Content → Storage Content
  storage_wipe_all s =
      let one = (zms.delete storage_id_system_config s.content).1 in
      let two = (zms.delete storage_id_pwm_levels one).1 in
      let three = (zms.delete storage_id_user_prefs two).1 in
      if s.initialized then record s { content = three } else s
