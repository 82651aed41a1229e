-- ===== src/Worker.antt =====
-- daemon/scdm-session-worker.c: the process that talks to PAM for one session.
pub mod Types
pub mod State
pub mod Extensions
pub mod Conversation
pub mod Pam
pub mod Login
pub mod Open
pub mod Steps
pub mod Requests
pub mod Events
pub mod Protocol
