-- ===== src/Server/Routes.antt =====
-- server/src/routes: the handlers, past the extractor of the caller's device. The handlers that answer
-- with a status code and a body give the body.
pub mod Devices
pub mod Messages
pub mod Prekeys
pub mod Register
