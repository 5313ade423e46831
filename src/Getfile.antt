-- ===== src/Getfile.antt =====
-- The GETFILE programs of proj1/getfile: the server library, its file handler and content table,
-- and the client library.
pub mod Response
pub mod Handler
pub mod Request
pub mod Client
pub mod Serve
pub mod RoundTrip
pub mod Content
pub mod Workload
pub mod Download
pub mod Main
