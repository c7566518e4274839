-- ===== src/Options.antt =====
-- init.go: how the options become the server's configuration. The values of viper, which merges the
-- configuration file with the flags, are fields of `Flags`; log.Fatalf is an error.
pub mod Args
pub mod Quoting
pub mod Methods
pub mod Resolve
pub mod Open
pub mod Tests
