-- ===== src/Tests.antt =====
-- The theorems at concrete inputs.
mod Fixtures
mod Accounts
mod Requests
mod Devices
mod Numbers
mod Sockets
mod Calls
mod Answers
mod Urls
mod Limits
mod Queries
mod Profiles
mod Sessions
mod Migrations
mod Bodies
mod History
mod Relay
mod Server
