-- ===== src/Irods.antt =====
-- irodsfs/irods.go and irodsfs/common.go: the calls of the iRODS client behind the handlers, their
-- permission bits and the translation of their errors. Each child holds one group of functions.
pub mod Access
pub mod Attrs
pub mod Xattrs
pub mod Changes
pub mod Opens
