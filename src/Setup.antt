-- ===== src/Setup.antt =====
-- The commands that set a node up (agent/provisioner.py, wifi_provision.py, ecobee_setup.py,
-- fake_demand.py), and the probes of what is installed on it.
pub mod EnvText
pub mod Provisioner
pub mod EcobeePin
pub mod Wifi
pub mod Demand
