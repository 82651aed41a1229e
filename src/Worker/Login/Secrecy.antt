-- ===== src/Worker/Login/Secrecy.antt =====
-- What a failed login tells of the user (authenticate_user and do_authenticate of
-- daemon/scdm-session-worker.c).
use scdm.Prelude.{◌≡◌, Option, some, [], ◌>>=◌}
use scdm.Worker.Pam.{close_pam, leave_vt}
use scdm.Worker.State.{set_state}
use scdm.Worker.Types.{State, state_none, PamCode, Worker, WorkerHost}

-- A worker but for the log of its PAM calls, which is all that the two results differ in.
unfoldable pub but_calls : Worker → Worker
but_calls w = record w { calls = [] }

abbrev SameBut : Worker → Worker → Type 0
SameBut w v = but_calls w ≡ but_calls v

abbrev DoesNotLook : (Worker → Worker) → Type 0
DoesNotLook f = (w : Worker) → but_calls (f w) ≡ but_calls (f (but_calls w))

module _ (host : WorkerHost) (code : PamCode) where
  ended : Worker → Worker
  ended w = set_state state_none (record (leave_vt host (close_pam code w)) { session_vt = 0 })

  abbrev forgotten : Option Worker → Option Worker
  forgotten o = o >>= λ y. some (but_calls y)
