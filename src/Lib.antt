-- ===== src/Lib.antt =====
-- A verification library for the HADCD agent: the node's rental listing on Vast.AI, its weather
-- schedule, the loops of the agent, the containers that a dispatcher may run on it, and the commands
-- that set it up.
--
-- The parts, and the files that model them:
-- - agent/vast_provider.py: `VastAiCli` is Vast.Cli, `VastProvider` is Vast.Provider. A method is an
--   action (Vast.Monad) on the provider that reads a `World` (the CLI's replies, the clock, Python's
--   parsers), leaves effects, and may raise. `update` is one tick; Vast.Provider.Sessions runs ticks
--   and overrides. Transitions, Commands, Sessions and Invariant hold the theorems.
-- - agent/weather.py: `cold_windows` and `hot_windows` are Weather.Windows, `build_vast_schedule` is
--   Weather.Schedule. Runs and Spells describe the windows without indices.
-- - agent/agent.py: `_vast_loop` and `_local_vast_schedule` are Agent.VastLoop, which feeds schedules
--   to `update`; `_apply_heat_override` is Agent.Room, `_demand_loop` Agent.Room.Demand;
--   `_heartbeat_loop` is Agent.Heartbeat, which hands overrides to the provider and to the room and
--   decides when the miner runs; `_apply_pending_config` is Agent.EnvFile; `_sync_media_models` is
--   Agent.MediaSync and `ensure_enrolled` Agent.Enrollment. `_run_assignment` is
--   Agent.Work, with the outcome of agent/executor.py and the names of agent/blob_client.py;
--   `_service_transfer_job`, `_fetch_from_peer`, `_transfer_loop` and `_storage_gc_loop` are
--   Agent.Storage, on a directory as a list of named files, with sweeps while a transfer waits;
--   agent/storage_server.py, which a peer's transfer asks, is Agent.Storage.Server.
-- - agent/heat_source.py: the readings and the file and URL adapters are Agent.HeatSource, the
--   thermostats its children HomeAssistant and Ecobee. agent/image_cache.py is Agent.ImageCache,
--   agent/kasa_power_meter.py is Agent.PowerMeter, agent/session_source.py Agent.SessionSource.
-- - agent/autonomous_mode.py: `AutonomousMiner._loop` is Agent.Miner.
-- - agent/state.py: `AgentState` is Agent.State. agent/rental_session_handler.py:
--   `RentalSessionHandler` is Agent.Rentals, with tasks that overlap as events in any order;
--   `_start_session` is Agent.Rentals.Start.
-- - hadcd_workloads/container.py: `_build_security_kwargs` is Container.Security,
--   `_check_mount_allowed` Container.Mounts; `_container` is Container.Run, with its mounts in
--   Container.Volumes. agent/blob_client.py: the names of blobs are Agent.Blobs. The miners of
--   hadcd_workloads/gpu_mining_fill.py and p2pool_fill.py are Workloads.Mining, the registry.py
--   beside them Workloads.Registry.
-- - agent/provisioner.py: the environment file is Setup.EnvText, the form Setup.Provisioner, the
--   handler and the loop Setup.Provisioner.Server. agent/ecobee_setup.py is Setup.EcobeePin,
--   agent/fake_demand.py is Setup.Demand, whose file Agent.HeatSource reads; agent/wifi_provision.py
--   is Setup.Wifi, with its scan in Scan and the run at boot in Boot.
-- Base holds what all parts share: lists over the native numbers, integers, JSON values, texts.
--
-- Conventions: floats are a parameter with their operations, or numbers in thousandths; times are
-- whole microseconds or seconds; loops over time are recursions on the list of what each pass meets,
-- so no fuel is needed. The one loop on fuel is Setup.EcobeePin's `poll` against the clock: 121
-- rounds are enough for its 600 seconds, since it sleeps 5 seconds in each, as poll_ends shows. Code outside the
-- repository is a parameter: the `vastai` binary, Docker, `os.path.realpath`, symbolic links, the JSON parser, the dispatcher's replies, the thermostat.
--
-- Not modelled: HTTP clients, subprocess and thread plumbing, logging, pages of HTML, the
-- configuration record, the synthetic burner, the dependency check, the probe of Tailscale, the
-- messages to systemd and the command line. Of the heartbeat loop, the request's body; of the miner,
-- the cancellation of a task that does not stop; of the storage pool, an open or an unlink of a
-- staging file that the system refuses, and a job whose hash is empty, is ".." or has a slash; of a
-- task, a cancellation in its last posts; of the work loop, its poll and the drain at the end; of the
-- wizard, its queries to Home Assistant.
pub mod Base
pub mod Vast
pub mod Weather
pub mod Agent
pub mod Container
pub mod Workloads
pub mod Setup
