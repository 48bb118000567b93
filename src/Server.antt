-- ===== src/Server.antt =====
-- server_for_mpu6050/c_server/server.c: the HTTP server that hands the samples of the producer to
-- its clients.
pub mod Config
pub mod Memory
pub mod Cache
pub mod Respond
pub mod Stream
pub mod Connection
pub mod Accept
