-- ===== src/Transfer.antt =====
-- The file transfer of proj1/transferfile: the client sends a file to the server, connects again and
-- receives one. Both programs are here as far as files and connections are concerned; what they print
-- is left out.
pub mod Options
pub mod Copying
pub mod Server
pub mod Client
