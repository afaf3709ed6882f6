-- ===== src/Tests.antt =====
-- The theorems at concrete packets, blocks and lists.
mod Data
mod Packets
mod Fields
mod Counters
mod Sections
mod Programs
mod Clock
mod Output
mod Loop
mod Streams
mod Events
mod Plain
mod Checks
mod Reception
mod Runs
