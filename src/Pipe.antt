-- ===== src/Pipe.antt =====
-- Pipes between a socket and its peers: src/pipe/pipe.cpp, pipe.hpp.
pub mod Queue
pub mod Endpoint
pub mod Transfer
pub mod Term
pub mod Credit
pub mod Fuel
pub mod Handshake
pub mod Ops
pub mod Ends
pub mod Pair
pub mod Closing
