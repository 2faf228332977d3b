-- ===== src/Gateway.antt =====
-- cmd/hogs-agent/gateway.go: the on-demand Minecraft gateway of the node agent. Codec reads and
-- writes its packets, Logins limits who may wake the server, Wake is its state with its starts.
pub mod Codec
pub mod Wake
pub mod Logins
mod Tests
