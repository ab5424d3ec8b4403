-- ===== src/Sessions.antt =====
-- The sessions of the server (internal/server): their tokens, the record of the sessions that ended, and
-- what a sign-in, a refresh and a sign-out do.
pub mod Bounds
pub mod Ended
pub mod Manager
pub mod Refresh
pub mod SignIn
pub mod SignOut
pub mod Tokens
pub mod Update
