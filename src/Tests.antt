-- ===== src/Tests.antt =====
-- Runs of the theorems on concrete states, one module per part of the kernel.
mod Frames
mod Regions
mod Headers
mod Tables
mod Devices
mod Users
mod Boot
mod Growth
mod Start
mod Numbers
mod Clients
mod Lists
mod Processes
