-- ===== src/Storage/Backends.antt =====
-- The storage backends: S3Save and LocalFileSystemSave of src/delegation_backend/submit.go,
-- KeyspaceSave of aws_keyspaces.go, PostgreSQLSave of postgres.go, and the `Save` that
-- src/cmd/delegation_backend/main_bpu.go makes of them; sessions, dropping tables, and opening a
-- PostgreSQL database.
pub mod Objects
pub mod Databases
pub mod Save
pub mod Session
pub mod Dropping
pub mod Opening
