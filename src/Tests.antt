-- ===== src/Tests.antt =====
-- Runs of the model at small inputs.
mod Maps
mod Locks
mod Handles
mod Server
mod Irods
mod Dir
mod Files
mod FileHandles
mod Fs
mod Renames
mod Config
mod Commands
mod Mounts
