-- ===== src/CommandLine.antt =====
-- pkg/cli/cmd: the command line tool. What a command prints is the row of its calls of `print`; a table is
-- its lines, whose cells a tab separates.
pub mod Terminal
pub mod Texts
pub mod Stats
pub mod Listing
pub mod Top
pub mod Details
pub mod Delete
