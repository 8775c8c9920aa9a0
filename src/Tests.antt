-- ===== src/Tests.antt =====
-- Runs of the definitions on concrete inputs, and the theorems at such inputs.
mod Files
mod Commands
mod Protocol
mod HostLists
mod Picking
mod Transfer
mod Driving
mod Requests
mod Clients
mod Dependencies
mod Compilers
mod Paths
mod Objects
mod Jobs
