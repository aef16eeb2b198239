-- ===== src/Lib.antt =====
-- ZBeam: the firmware of a flashlight on Zephyr.
--
-- The button's key events go to the tap engine (lib/multi_tap_input.c), which posts taps, holds and
-- releases to a message queue. A worker thread (lib/fsm_worker.c) takes them from the queue and
-- gives them to the engine (lib/fsm_engine.c), which walks a graph of nodes. The graphs are
-- src/ui_simple.c and src/ui_advanced.c; their nodes have action routines and callbacks of
-- src/ui_actions.c, which drive the emitters (src/channel_manager.c, dimmed by
-- lib/thermal_manager.c), the auxiliary LED (lib/aux_manager.c), the battery check
-- (src/batt_check.c), the settings (lib/nvs_manager.c) and the power state (lib/pm_manager.c). A
-- second thread (lib/safety_monitor.c) watches the sensors and posts shutdowns to the same queue.
-- src/main.c starts all of these, and the driver of include/pwm_ramp.h, which nothing else calls.
--
-- Files. Fsm is lib/fsm_engine.c: the static variables are the record Fsm, each function has the
-- name that it has there, and the nodes' addresses, their table and the rest of the program's
-- state are parameters, so what is shown holds for any graph. Tap is lib/multi_tap_input.c, with
-- a list of events in place of the interrupts. Worker is lib/fsm_worker.c, Safety
-- lib/safety_monitor.c, Thermal lib/thermal_manager.c, Channel src/channel_manager.c, Aux
-- lib/aux_manager.c, Pm lib/pm_manager.c, Batt src/batt_check.c, Nvs lib/nvs_manager.c, Msg
-- include/zbeam_msg.h. Ui is src/ui_actions.c: its static variables are the record Ui, and Device
-- joins them with the state of the parts that they drive and the log of the calls that leave the
-- program. Node and Tree are src/ui_simple.c and src/ui_advanced.c; Tree.Table gives the engine
-- its table. Examples has a lamp and runs of the code. Pwm is include/pwm_ramp.h with its three
-- drivers: the static variables that each has are the record Ramp, Contract has the header as a
-- record of operations beside a lamp without time, and Refine compares two drivers by it. Tables has
-- the generated tables, Storage is lib/storage_manager.c. System is src/main.c: the state of all
-- parts, the start, and, in Events, the messages and timer expiries that follow; in Live a timer
-- expires only while it runs, and Threads has all threads on one queue, in any order. There the program
-- can end: Quiet says which calls end it, `sys_reboot`, which does not return, and `k_msleep` in an
-- interrupt, where the timers' handlers run; Interrupts says which handlers sleep. Events and Live have
-- no such end: a handler's step is whole there, and events go on after it. Worker.Loop
-- is the worker's loop on its queue, with posts of other threads in between. Fsm.Within carries an
-- invariant that depends on the current node. Base has what the files share: the integers of C as ℤ
-- over native numbers, with the division and the remainder of C, Boolean tests, lists.
--
-- What is outside is an argument: the clock, random numbers, the sensor, the ADC, the storage and
-- the readiness of devices are the record Env; the kernel's message queue is a record of operations
-- with the laws of its documentation; a software timer is the request last made of it (Kernel). The
-- mutation of static variables is state passing, one step for each C statement.
--
-- Integers. A uint8_t, uint16_t or uint32_t keeps its wrap-around where the code can reach it. The
-- int32_t arithmetic is that of the integers, since signed overflow is undefined in C.
--
-- Configuration: that of prj.conf and the defaults of Kconfig (10 navigation slots, a queue of 8,
-- sweeps of 2000 and 3000 ms, strobes of 2 to 80 Hz, NVS enabled); the thresholds of the safety
-- monitor, the gains of the PID loop and the default thermal limit are arguments. The
-- interpolation step of the ramp on the ESP32 is 8. Only the loops of the two ramps run on fuel:
-- 255 rounds of one level, and 32 rounds of 8 levels, are enough, since no two levels of type uint8_t
-- are more than 255 apart. Every other loop is over a list, a count or a table.
--
-- Not modelled: include/ramp_table_13bit.h (included by no file), the stubs of include/nvs_manager.h
-- for a build without NVS, the check of the input device, log messages, thread scheduling: a handler
-- runs as one step, and another thread can stop a ramp only in its sleeps. Drivers that a handler calls
-- in an interrupt (PWM, sensor, ADC, flash) are taken to return. lib/storage_manager.c and
-- lib/n_tap_input_handler.c (Tap.Filter) are modelled although they are not in the build.
pub mod Base
pub mod Kernel
pub mod Env
pub mod Msg
pub mod Nvs
pub mod Fsm
pub mod Thermal
pub mod Channel
pub mod Pm
pub mod Aux
pub mod Batt
pub mod Node
pub mod Ui
pub mod Tree
pub mod Tap
pub mod Worker
pub mod Safety
pub mod Tables
pub mod Pwm
pub mod Storage
pub mod System
pub mod Examples
