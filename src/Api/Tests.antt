-- ===== src/Api/Tests.antt =====
-- A concrete server for the tests, and the tests themselves.
mod Fixtures
mod Session
mod Payloads
mod Routing
mod Network
