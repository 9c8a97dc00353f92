-- ===== src/Cmd.antt =====
-- cmd: the commands. Parsing flags and arguments is cobra's work: a command takes the flags that it
-- reads as arguments and gives the lines that it prints.
pub mod Control
pub mod Settings
pub mod Orders
pub mod Listing
pub mod Manager
pub mod Serving
pub mod Worker
