-- ===== src/Tests.antt =====
-- The theorems at concrete inputs, and runs of the definitions.
mod Fixtures
mod Spool
mod Streams
mod Content
mod Shares
mod Auth
mod Ui
mod Redis
mod Server
mod Opds
mod Services
mod Cache
mod Write
mod Filenames
mod Moves
mod Folders
mod Prefetch
