-- ===== src/Storage/Refused.antt =====
-- What lib/storage_manager.c refuses when its file system is not mounted.
use zbeam.Base.{ℕ, ◌≡◌, refl, ap, arith, false, List}
use zbeam.Kernel.{enodev, enoent}
use zbeam.Nvs.{Flash, is_ok}
use zbeam.Storage.{
  SystemConfig, config_bytes, Fits, Zms, Storage, storage_id_system_config, storage_init,
  storage_write, storage_read, storage_save_system_config, storage_load_system_config,
  storage_wipe_all,
}
use zbeam.Storage.Persist.{config_of-bytes}

module _ {Content : Type 0} (zms : Zms Content) where
  init-unset :
      (flash : Flash) (s : Storage Content)
      → s.initialized ≡ false
      → is_ok (storage_init zms flash s).0 ≡ false
      → (storage_init zms flash s).1.initialized ≡ false
  unfolding storage_init
  init-unset flash s unset = ground arith

  write-unset :
      (id : ℕ) (bytes : List ℕ) (s : Storage Content)
      → s.initialized ≡ false
      → storage_write zms id bytes s ≡ (enodev, s)
  unfolding storage_write
  write-unset id bytes s unset = simp unset refl

  read-unset :
      (id : ℕ) (buffer : List ℕ) (len : ℕ) (s : Storage Content)
      → s.initialized ≡ false
      → storage_read zms id buffer len s ≡ (enodev, buffer)
  unfolding storage_read
  read-unset id buffer len s unset = simp unset refl

  load-unset :
      (config : SystemConfig) (s : Storage Content)
      → Fits config
      → s.initialized ≡ false
      → storage_load_system_config zms config s ≡ (enoent, config)
  unfolding storage_load_system_config
  load-unset config s fits unset =
      rw (read-unset storage_id_system_config (config_bytes config) 12 s unset)
        (ap (λ c. (enoent, c)) (config_of-bytes config fits))

  wipe-unset : (s : Storage Content) → s.initialized ≡ false → storage_wipe_all zms s ≡ s
  unfolding storage_wipe_all
  wipe-unset s unset = simp unset refl

  -- Where `storage_init` returns an error, a storage that was not initialised stays so, and every call
  -- after it is refused: writes, saves and reads with -ENODEV, a load with -ENOENT and the caller's
  -- struct, within its types, as it was, while a wipe changes nothing.
  pub storage_init-refused :
      (flash : Flash) (s : Storage Content) (id : ℕ) (bytes buffer : List ℕ) (len : ℕ)
      (config : SystemConfig)
      → s.initialized ≡ false
      → Fits config
      → is_ok (storage_init zms flash s).0 ≡ false
      → let after = (storage_init zms flash s).1 in
        (after.initialized ≡ false)
        × (storage_write zms id bytes after ≡ (enodev, after))
        × (storage_save_system_config zms config after ≡ (enodev, after))
        × (storage_read zms id buffer len after ≡ (enodev, buffer))
        × (storage_load_system_config zms config after ≡ (enoent, config))
        × (storage_wipe_all zms after ≡ after)
  unfolding storage_save_system_config
  storage_init-refused flash s id bytes buffer len config unset fits failed =
      let after = (storage_init zms flash s).1 in
      let still = init-unset flash s unset failed in
      (
        still,
        write-unset id bytes after still,
        write-unset storage_id_system_config (config_bytes config) after still,
        read-unset id buffer len after still,
        load-unset config after fits still,
        wipe-unset after still,
      )
