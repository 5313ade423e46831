-- ===== src/Examples.antt =====
-- The theorems at concrete inputs, by the program that they are about.
mod Queue
mod Files
mod Table
mod Programs
mod Workers
mod Clients
mod Sharing
mod Fetching
mod Pictures
mod Downloads
mod Servers
mod Service
