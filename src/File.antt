-- ===== src/File.antt =====
-- file.go: the handlers of a file node, each on the node's path. The mutexes are left out: a call is
-- one step. Log messages are left out.
pub mod Paths
pub mod Attrs
pub mod Xattrs
pub mod Opens
pub mod LockRequests
