-- ===== src/Session.antt =====
-- daemon/scdm-session.c: a session that talks to its workers and to the login screen.
pub mod Types
pub mod Names
pub mod Conversations
pub mod Queries
pub mod Setup
pub mod Start
pub mod Program
pub mod Greeter
pub mod Order
