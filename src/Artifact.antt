-- ===== src/Artifact.antt =====
-- Package artifact/file: artifacts with versions in a directory tree.
pub mod Disk
pub mod Names
pub mod Versions
pub mod Service
