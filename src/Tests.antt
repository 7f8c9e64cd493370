-- ===== src/Tests.antt =====
-- The theorems at concrete inputs: a WAL of small pages, a replica with two WALs, and names.
mod Names
mod Format
mod Shadow
mod Searches
mod Downloads
mod Follower
mod Syncing
mod Verifying
mod Remote
mod Opening
mod Sftp
mod Cloud
mod Serving
mod Configs
mod Restoring
mod Closing
