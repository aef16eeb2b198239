-- ===== src/Ui/Memory.antt =====
-- What the memory modes of src/ui_actions.c bring back when the lamp is turned on.
use zbeam.Base.{
  ℕ, ◌-◌, ◌≡◌, ◌<◌, ◌≤◌, ap, ◌|>◌, refl, arith, true, false, ◌&&◌, ◌∙◌, ltb, List, if◌then◌else◌,
}
use zbeam.Env.{Env}
use zbeam.Kernel.{stopped, started}
use zbeam.Pm.{Pm, pm_resume}
use zbeam.Ui.Device.{
  Ui, Device, MemoryMode, mem_auto, mem_manual, mem_hybrid, param_brightness, update_led_hardware,
  on_ui, on_pm, pulses, light,
}
use zbeam.Ui.Ramp.{stop_ramping}
use zbeam.Ui.Actions.{action_off, action_on, light_chosen, target_pwm}

-- The level of a memory mode, `elapsed` milliseconds after the lamp was turned off.
unfoldable pub remembered : MemoryMode → (elapsed timeout manual memorized : ℕ) → ℕ
remembered mem_auto elapsed timeout manual memorized = memorized
remembered mem_manual elapsed timeout manual memorized = manual
remembered mem_hybrid elapsed timeout manual memorized =
    if ltb 0 timeout && ltb timeout elapsed then manual else memorized

-- An override comes before the memory.
unfoldable pub chosen : (override : ℕ) → MemoryMode → (elapsed timeout manual memorized : ℕ) → ℕ
chosen override mode elapsed timeout manual memorized =
    if ltb 0 override then override else remembered mode elapsed timeout manual memorized

chosen_by : (now : ℕ) → Ui → ℕ
chosen_by now u =
    chosen u.override_brightness u.current_mem_mode (now - u.last_off_time) u.hybrid_timeout_ms
      u.manual_mem_level u.memorized_brightness

-- What a stopped ramp leaves in the memory.
abbrev pub kept_level : Ui → ℕ
kept_level u =
    if u.ramp_active
    then (elim u.active_param [
      | param_brightness ↦ u.current_brightness
      | _ ↦ u.memorized_brightness
    ])
    else u.memorized_brightness

light_chosen-chosen :
    (now : ℕ) (d : Device)
    → let e = light_chosen now d in
      (e.ui.override_brightness ≡ 0)
      × (e.ui.current_brightness ≡ chosen_by now d.ui)
      × (pulses e.calls ≡ light d (chosen_by now d.ui))
      × (e.ui.thermal_timer ≡ d.ui.thermal_timer)
      × (e.ui.ramp_timer ≡ d.ui.ramp_timer)
      × (e.pm ≡ d.pm)
unfolding light_chosen chosen chosen_by remembered target_pwm update_led_hardware
light_chosen-chosen now d = ground arith

stop-memory :
    (now : ℕ) (d : Device)
    → let e = stop_ramping d in
      (chosen_by now e.ui
        ≡ chosen d.ui.override_brightness d.ui.current_mem_mode
            (now - d.ui.last_off_time)
            d.ui.hybrid_timeout_ms
            d.ui.manual_mem_level
            (kept_level d.ui))
      × (e.thermal ≡ d.thermal)
      × (e.channel ≡ d.channel)
      × (e.pm ≡ d.pm)
      × (e.ui.ramp_timer ≡ stopped)
      × (e.ui.thermal_timer ≡ d.ui.thermal_timer)
unfolding stop_ramping chosen_by
stop-memory now d = ground arith

resumed : Device → Device
resumed d = d |> on_pm pm_resume |> on_ui (λ u. record u { thermal_timer = started 500 500 })

pub pm_resume-awake : (p : Pm) → (pm_resume p).is_suspended ≡ false
unfolding pm_resume
pm_resume-awake p = ground arith

same_light :
    (d e : Device) {level chosen : ℕ} {ps : List ℕ}
    → ps ≡ light e level
    → level ≡ chosen
    → e.thermal ≡ d.thermal
    → e.channel ≡ d.channel
    → ps ≡ light d chosen
same_light d e p q r s = cc

-- `action_on` takes the device out of suspension, starts the thermal timer, stops the ramp, and
-- uses up the override. The level it lights and keeps is the override if there is one, and else
-- that of the memory mode: the memorized level, which is the current level if it was being ramped;
-- the manual level; or in hybrid mode the manual level once more than the timeout has passed since
-- the lamp was turned off, if the timeout is not 0, and the memorized level before that.
pub action_on-chosen :
    (env : Env) (d : Device)
    → let e = action_on env d in
      let level =
        chosen d.ui.override_brightness d.ui.current_mem_mode
          (env.uptime - d.ui.last_off_time)
          d.ui.hybrid_timeout_ms
          d.ui.manual_mem_level
          (kept_level d.ui) in
      (e.pm.is_suspended ≡ false)
      × (e.ui.thermal_timer ≡ started 500 500)
      × (e.ui.ramp_timer ≡ stopped)
      × (e.ui.override_brightness ≡ 0)
      × (e.ui.current_brightness ≡ level)
      × (pulses e.calls ≡ light d level)
unfolding action_on resumed
action_on-chosen env d =
    let on = resumed d in
    let (no_override, level, lit, heat, ramp, pm) =
      light_chosen-chosen env.uptime (stop_ramping on) in
    let (kept, thermal, channel, pm', ramp', heat') = stop-memory env.uptime on in
    (
      ap (λ p. p.is_suspended) (pm ∙ pm') ∙ pm_resume-awake d.pm,
      heat ∙ heat',
      ramp ∙ ramp',
      no_override,
      level ∙ kept,
      same_light d (stop_ramping on) lit kept thermal channel,
    )

pub off-memory :
    (env : Env) (d : Device)
    → let e = action_off env d in
      (kept_level e.ui ≡ kept_level d.ui)
      × (e.ui.override_brightness ≡ d.ui.override_brightness)
      × (e.ui.current_mem_mode ≡ d.ui.current_mem_mode)
      × (e.ui.last_off_time ≡ env.uptime)
      × (e.ui.hybrid_timeout_ms ≡ d.ui.hybrid_timeout_ms)
      × (e.ui.manual_mem_level ≡ d.ui.manual_mem_level)
      × (e.thermal ≡ d.thermal)
      × (e.channel ≡ d.channel)
unfolding action_off stop_ramping update_led_hardware
off-memory env d = ground arith

off_chosen :
    (env : Env) (now : ℕ) (d : Device)
    → d.ui.override_brightness ≡ 0
    → d.ui.ramp_active ≡ true
    → d.ui.active_param ≡ param_brightness
    → let e = action_off env d in
      chosen e.ui.override_brightness e.ui.current_mem_mode
        (now - e.ui.last_off_time)
        e.ui.hybrid_timeout_ms
        e.ui.manual_mem_level
        (kept_level e.ui)
      ≡ chosen 0 d.ui.current_mem_mode
          (now - env.uptime)
          d.ui.hybrid_timeout_ms
          d.ui.manual_mem_level
          d.ui.current_brightness
off_chosen env now d p q r =
    let kept : kept_level d.ui ≡ d.ui.current_brightness = rw (q, r) refl in
    let (k, o, m, l, h, n, _, _) = off-memory env d in
    let level = k ∙ kept in let no_override = o ∙ p in cc

light_after :
    (env : Env) (d : Device) (level : ℕ) {ps : List ℕ}
    → ps ≡ light (action_off env d) level
    → ps ≡ light d level
light_after env d level p =
    let (_, _, _, _, _, _, t, c) = off-memory env d in same_light d (action_off env d) p refl t c

module _ (mode : MemoryMode) (elapsed timeout manual memorized : ℕ) where
  chosen-auto : mode ≡ mem_auto → chosen 0 mode elapsed timeout manual memorized ≡ memorized
  unfolding chosen remembered
  chosen-auto m = rw m refl

  chosen-manual : mode ≡ mem_manual → chosen 0 mode elapsed timeout manual memorized ≡ manual
  unfolding chosen remembered
  chosen-manual m = rw m refl

  chosen-soon :
      mode ≡ mem_hybrid
      → elapsed ≤ timeout
      → chosen 0 mode elapsed timeout manual memorized ≡ memorized
  unfolding chosen remembered
  chosen-soon m h = rw m (ground arith)

  chosen-late :
      mode ≡ mem_hybrid
      → 0 < timeout
      → timeout < elapsed
      → chosen 0 mode elapsed timeout manual memorized ≡ manual
  unfolding chosen remembered
  chosen-late m h h' = rw m (ground arith)

-- `e` has a level, and the emitters the light that `d` gives it.
abbrev pub Brings : (e d : Device) → (level : ℕ) → Type 0
Brings e d level = (e.ui.current_brightness ≡ level) × (pulses e.calls ≡ light d level)

light_of :
    (e d : Device) {a : ℕ}
    → e.ui.current_brightness ≡ a
    → pulses e.calls ≡ light d a
    → (b : ℕ) → a ≡ b
    → Brings e d b
light_of e d p q b r = (p ∙ r, q ∙ ap (light d) r)

-- With no override, and while the brightness is being ramped, turning the lamp off and on
-- again in the automatic mode, or in the hybrid mode within the timeout, brings back the level
-- of the ramp and its light; in the hybrid mode after more than a timeout that is not 0, and
-- in the manual mode, it brings the manual level.
pub off_on-memory :
    (env later : Env) (d : Device)
    → d.ui.override_brightness ≡ 0
    → d.ui.ramp_active ≡ true
    → d.ui.active_param ≡ param_brightness
    → let e = action_on later (action_off env d) in
      (d.ui.current_mem_mode ≡ mem_auto → Brings e d d.ui.current_brightness)
      × (d.ui.current_mem_mode ≡ mem_hybrid
          → later.uptime - env.uptime ≤ d.ui.hybrid_timeout_ms
          → Brings e d d.ui.current_brightness)
      × (d.ui.current_mem_mode ≡ mem_hybrid
          → 0 < d.ui.hybrid_timeout_ms
          → d.ui.hybrid_timeout_ms < later.uptime - env.uptime
          → Brings e d d.ui.manual_mem_level)
      × (d.ui.current_mem_mode ≡ mem_manual → Brings e d d.ui.manual_mem_level)
off_on-memory env later d p q r =
    let off = action_off env d in
    let e = action_on later off in
    let (no_suspend, heat, ramp, no_override, level, lit) = action_on-chosen later off in
    let w = off_chosen env later.uptime d p q r in
    let lit' = light_after env d _ lit in
    let elapsed = later.uptime - env.uptime in
    let u = d.ui in
    let go = light_of e d (level ∙ w) (lit' ∙ ap (light d) w) in
    (
      λ m. go _ (chosen-auto u.current_mem_mode elapsed u.hybrid_timeout_ms u.manual_mem_level _ m),
      λ m h.
          go _
            (chosen-soon u.current_mem_mode elapsed u.hybrid_timeout_ms u.manual_mem_level _ m h),
      λ m h h'.
          go _ (
            chosen-late u.current_mem_mode elapsed u.hybrid_timeout_ms u.manual_mem_level _ m h h'),
      λ m.
          go _
            (chosen-manual u.current_mem_mode elapsed u.hybrid_timeout_ms u.manual_mem_level _ m),
    )
