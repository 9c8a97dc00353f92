-- ===== src/Tests.antt =====
-- Concrete runs of the program.
mod Samples
mod Examples
mod Pieces
mod Runs
mod Lifetimes
mod Managers
mod Orders
mod Disks
mod Starts
mod Fleets
mod Choices
mod Remotes
mod Commands
mod Servers
mod Arrivals
mod Restarts
