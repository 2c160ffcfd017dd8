-- ===== src/Examples.antt =====
-- Runs of the code on small inputs, one module for each part.
pub mod Statuses
pub mod Tables
pub mod Ends
pub mod Domains
pub mod Runs
pub mod Jobs
pub mod Replicas
pub mod Rollouts
pub mod Warnings
pub mod Schedules
pub mod Views
pub mod Backups
pub mod Rotations
pub mod Addresses
pub mod Archives
