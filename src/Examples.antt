-- ===== src/Examples.antt =====
-- Runs of the modelled code on small inputs, by part of the program.
mod Pipes
mod Queues
mod Frames
mod Records
mod Objects
mod Texts
mod Prefixes
mod Subscribers
mod Routers
mod Publishers
mod Settings
