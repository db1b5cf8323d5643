-- ===== src/Examples.antt =====
-- Concrete surroundings for the daemon, tests, and the theorems at concrete inputs.
mod Toy
mod ToyPlugin
mod ArpingRuns
mod IpamdRuns
mod ServerRuns
mod DaemonRuns
mod LogRuns
mod NodeRuns
mod PluginRuns
mod ControllerRuns
mod ToyLaws
mod HostRuns
