-- ===== src/Tests.antt =====
-- A concrete system, runs of the commands on it, and the theorems applied to it.
mod Demo
mod Network
mod Runs
mod Startup
mod Dump
mod Witnesses
mod Measuring
mod Files
mod Listing
mod Paths
