-- ===== src/Storage/Persist.antt =====
-- What lib/storage_manager.c keeps, on a ZMS that does as documented.
use zbeam.Base.{
  ℕ, ◌+◌, ◌*◌, ◌/◌, ◌%◌, ◌≡◌, ◌≢◌, ◌<◌, refl, sym, ap, ◌∙◌, subst, arith, true, false, List, [],
  length,
}
use zbeam.Base.Int.{pos, ltb_ℤ}
use zbeam.Kernel.{enoent}
use zbeam.Storage.{
  SystemConfig, config_bytes, config_of, Fits, Zms, Storage, storage_id_system_config,
  storage_id_pwm_levels, storage_id_user_prefs, overlay, storage_write, storage_read,
  storage_save_system_config, storage_load_system_config, storage_wipe_all,
}

-- The documentation of `zms_write`, `zms_read` and `zms_delete`: a write that reports no error can be
-- read back, a deletion that succeeds leaves no entry, and it leaves every other entry as it was.
pub record IsZms {Content : Type 0} (zms : Zms Content) : Type 0 where
  pub read_written :
      (id : ℕ) (bytes : List ℕ) (c : Content)
      → ltb_ℤ (zms.write id bytes c).0 (pos 0) ≡ false
      → zms.read id (length bytes) (zms.write id bytes c).1 ≡ (pos (length bytes), bytes)
  pub read_deleted :
      (id len : ℕ) (c : Content)
      → (zms.delete id c).0 ≡ pos 0
      → zms.read id len (zms.delete id c).1 ≡ (enoent, [])
  pub read_other :
      (id other len : ℕ) (c : Content)
      → other ≢ id
      → zms.read other len (zms.delete id c).1 ≡ zms.read other len c

word_round :
    (n : ℕ)
    → n < 4294967296
    → n % 256 + 256 * (n / 256 % 256) + 65536 * (n / 65536 % 256) + 16777216 * (n / 16777216 % 256)
      ≡ n
word_round n h = omega arith

pub config_of-bytes : (c : SystemConfig) → Fits c → config_of (config_bytes c) ≡ c
unfolding config_of config_bytes
config_of-bytes c f =
    rw (word_round c.click_timeout_ms f.click, word_round c.hold_duration_ms f.hold) refl

-- A record of the struct's size fills the buffer.
overlay-config :
    (c old : SystemConfig) → overlay (config_bytes c) (config_bytes old) ≡ config_bytes c
unfolding config_bytes
overlay-config c old = refl

length-config : (c : SystemConfig) → length (config_bytes c) ≡ 12
unfolding config_bytes
length-config c = refl

module _ {Content : Type 0} (zms : Zms Content) where
  write-ready :
      (id : ℕ) (bytes : List ℕ) (s : Storage Content)
      → s.initialized ≡ true
      → storage_write zms id bytes s ≡ (
        (zms.write id bytes s.content).0,
        record s { content = (zms.write id bytes s.content).1 },
      )
  unfolding storage_write
  write-ready id bytes s ready = rw ready refl

  read-ready :
      (id : ℕ) (buffer : List ℕ) (len : ℕ) (s : Storage Content)
      → s.initialized ≡ true
      → storage_read zms id buffer len s
        ≡ ((zms.read id len s.content).0, overlay (zms.read id len s.content).1 buffer)
  unfolding storage_read
  read-ready id buffer len s ready = rw ready refl

  -- A record of the struct's size is loaded.
  load-found :
      (s : Storage Content) (config old : SystemConfig)
      → s.initialized ≡ true
      → Fits config
      → zms.read storage_id_system_config 12 s.content ≡ (pos 12, config_bytes config)
      → storage_load_system_config zms old s ≡ (pos 0, config)
  unfolding storage_load_system_config
  load-found s config old ready fits found =
      rw
        (
          read-ready storage_id_system_config (config_bytes old) 12 s ready,
          found,
          overlay-config config old,
        )
        (ap (λ c. (pos 0, c)) (config_of-bytes config fits))

module _ {Content : Type 0} (zms : Zms Content) (law : IsZms zms) where
  -- On a ZMS that does as documented, and once the storage is initialised, a configuration within its
  -- types that `storage_save_system_config` saves with no error is what `storage_load_system_config`
  -- then loads, with code 0 and whatever the caller's struct held.
  pub load-save :
      (s : Storage Content) (config old : SystemConfig)
      → s.initialized ≡ true
      → Fits config
      → ltb_ℤ (storage_save_system_config zms config s).0 (pos 0) ≡ false
      → storage_load_system_config zms old (storage_save_system_config zms config s).1
        ≡ (pos 0, config)
  unfolding storage_save_system_config
  load-save s config old ready fits saved =
      let id = storage_id_system_config in
      let bytes = config_bytes config in
      let stored = (zms.write id bytes s.content).1 in
      let w = write-ready zms id bytes s ready in
      let kept : ltb_ℤ (zms.write id bytes s.content).0 (pos 0) ≡ false =
        subst (λ x. ltb_ℤ x.0 (pos 0) ≡ false) w saved in
      let found : zms.read id 12 stored ≡ (pos 12, bytes) =
        subst (λ n. zms.read id n stored ≡ (pos n, bytes)) (length-config config)
          (law.read_written id bytes s.content kept) in
      subst (λ x. storage_load_system_config zms old x.1 ≡ (pos 0, config)) (sym w)
        (load-found zms (record s { content = stored }) config old ready fits found)

  read-gone :
      (id : ℕ) (buffer : List ℕ) (len : ℕ) (s : Storage Content)
      → s.initialized ≡ true
      → zms.read id len s.content ≡ (enoent, [])
      → storage_read zms id buffer len s ≡ (enoent, buffer)
  read-gone id buffer len s ready gone = rw (read-ready zms id buffer len s ready, gone) refl

  load-gone :
      (config : SystemConfig) (s : Storage Content)
      → s.initialized ≡ true
      → zms.read storage_id_system_config 12 s.content ≡ (enoent, [])
      → (storage_load_system_config zms config s).0 ≡ enoent
  unfolding storage_load_system_config
  load-gone config s ready gone =
      rw (read-gone storage_id_system_config (config_bytes config) 12 s ready gone) refl

  abbrev wiped_content : Content → Content
  wiped_content c =
      let one = (zms.delete storage_id_system_config c).1 in
      let two = (zms.delete storage_id_pwm_levels one).1 in (zms.delete storage_id_user_prefs two).1

  wipe-ready :
      (s : Storage Content)
      → s.initialized ≡ true
      → storage_wipe_all zms s ≡ record s { content = wiped_content s.content }
  unfolding storage_wipe_all
  wipe-ready s ready = rw ready refl

  -- Each deletion takes its entry away, and the later ones do not bring it back.
  all-gone :
      (c : Content)
      → ((id : ℕ) (c : Content) → (zms.delete id c).0 ≡ pos 0)
      → let Gone = λ (id : ℕ). (len : ℕ) → zms.read id len (wiped_content c) ≡ (enoent, []) in
        Gone storage_id_system_config × Gone storage_id_pwm_levels × Gone storage_id_user_prefs
  all-gone c works =
      let one = (zms.delete storage_id_system_config c).1 in
      let two = (zms.delete storage_id_pwm_levels one).1 in
      (
        λ len.
            law.read_other 3 1 len two (omega arith)
            ∙ law.read_other 2 1 len one (omega arith)
            ∙ law.read_deleted 1 len c (works 1 c),
        λ len. law.read_other 3 2 len two (omega arith) ∙ law.read_deleted 2 len one (works 2 one),
        λ len. law.read_deleted 3 len two (works 3 two),
      )

  -- Once the storage is initialised, and where each deletion succeeds, `storage_wipe_all` leaves none
  -- of the three records: each is read as not found, with the caller's buffer as it was, and
  -- `storage_load_system_config` says so too.
  pub storage_wipe_all-forgets :
      (s : Storage Content) (config : SystemConfig) (buffer : List ℕ) (len : ℕ)
      → s.initialized ≡ true
      → ((id : ℕ) (c : Content) → (zms.delete id c).0 ≡ pos 0)
      → let wiped = storage_wipe_all zms s in
        (storage_read zms storage_id_system_config buffer len wiped ≡ (enoent, buffer))
        × (storage_read zms storage_id_pwm_levels buffer len wiped ≡ (enoent, buffer))
        × (storage_read zms storage_id_user_prefs buffer len wiped ≡ (enoent, buffer))
        × ((storage_load_system_config zms config wiped).0 ≡ enoent)
  storage_wipe_all-forgets s config buffer len ready works =
      let c = wiped_content s.content in
      let (one, two, three) = all-gone s.content works in
      subst
        (λ w.
          (storage_read zms storage_id_system_config buffer len w ≡ (enoent, buffer))
          × (storage_read zms storage_id_pwm_levels buffer len w ≡ (enoent, buffer))
          × (storage_read zms storage_id_user_prefs buffer len w ≡ (enoent, buffer))
          × ((storage_load_system_config zms config w).0 ≡ enoent))
        (sym (wipe-ready s ready))
        (
          read-gone storage_id_system_config buffer len (record s { content = c }) ready (one len),
          read-gone storage_id_pwm_levels buffer len (record s { content = c }) ready (two len),
          read-gone storage_id_user_prefs buffer len (record s { content = c }) ready (three len),
          load-gone config (record s { content = c }) ready (one 12),
        )
