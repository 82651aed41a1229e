-- ===== src/Session/Greeter/FailedStart.antt =====
-- What a worker that does not start does to the session later: daemon/scdm-session.c.
use scdm.Session.Types.{Session}
