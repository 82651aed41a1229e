-- ===== src/Worker/Login.antt =====
-- daemon/scdm-session-worker.c: who the user is, whether the user may log in, and the user's
-- credentials.
pub mod Secrecy
use scdm.Prelude.{
  ℕ, zero, suc, ◌+◌, ◌/◌, ◌%◌, Bool, true, false, not, ◌&&◌, Option, none, some, List, [], ◌∷◌,
  ◌++◌, if◌then◌else◌, ◌==◌, Bytes, codes, bytes_eq, is_some, ◌>>=◌,
}
use scdm.Worker.Conversation.{run_pam}
use scdm.Worker.Pam.{Failure, is_success, finish}
use scdm.Worker.State.{get_username, set_state, report, call, set_environment_variable}
use scdm.Worker.Types.{
  authenticated, authorized, accredited, PamCode, success, ignore, authinfo_unavail, user_unknown,
  auth_err, new_authtok_reqd, acct_expired, authtok_expired, conv_err, abort, system_err,
  other_code, authenticate, acct_mgmt, chauthtok, setcred, service_unavailable, authenticating,
  authorizing, giving_credentials, user_accredited, password_changed, password_change_failure,
  Passwd, Worker, WorkerHost,
}

-- `get_friendly_error_message`
unfoldable pub friendly : PamCode → Bytes
friendly success = []
friendly ignore = []
friendly acct_expired = codes "Your account was given a time limit that's now passed."
friendly authtok_expired = codes "Your account was given a time limit that's now passed."
friendly _ = codes "Sorry, that didn't work. Please try again."

-- Whether the result of `pam_authenticate` is PAM_USER_UNKNOWN makes no difference to the user.
unfoldable pub hide_unknown : PamCode → PamCode
hide_unknown user_unknown = auth_err
hide_unknown code = code

unfoldable pub after_authenticate : WorkerHost → PamCode → Worker → Option (Worker × Failure)
unfolding set_state finish friendly hide_unknown
after_authenticate host success worker = some (set_state authenticated worker, none)
after_authenticate host authinfo_unavail worker =
    finish host authinfo_unavail worker (some (service_unavailable, []))
after_authenticate host code worker =
    finish host (hide_unknown code) worker (some (authenticating, friendly (hide_unknown code)))

-- `scdm_session_worker_authenticate_user`
unfoldable pub authenticate_user : WorkerHost → Worker → Option (Worker × Failure)
unfolding call after_authenticate
authenticate_user host worker =
    run_pam host (host.pam_authenticate worker.password_is_required) worker >>= λ r.
    after_authenticate host r.1 (call (authenticate worker.password_is_required r.1) r.0)

-- The password or the PIN has to be changed: the new result, and a report.
unfoldable pub change_password : WorkerHost → Worker → Option (Worker × PamCode)
unfolding call report is_success
change_password host worker = run_pam host host.pam_chauthtok worker >>= λ r.
    get_username host.pam_user (call (chauthtok r.1) r.0) >>= λ s.
    some (report (if is_success r.1 then password_changed else password_change_failure) s.0, r.1)

unfoldable pub needs_new_password : PamCode → Bool
needs_new_password new_authtok_reqd = true
needs_new_password _ = false

unfoldable pub after_acct_mgmt : WorkerHost → PamCode → Worker → Option (Worker × PamCode)
unfolding needs_new_password change_password
after_acct_mgmt host code worker =
    if needs_new_password code && not worker.is_program_session
    then change_password host worker
    else some (worker, code)

-- Who authenticates again is logged in, and has no need to be authorized.
unfoldable pub excuse : Worker → PamCode → PamCode
excuse worker code = if worker.is_reauth_session then success else code

unfoldable pub after_authorize : WorkerHost → PamCode → Worker → Option (Worker × Failure)
unfolding set_state finish friendly is_success
after_authorize host code worker =
    if is_success code
    then some (set_state authorized worker, none)
    else finish host code worker (some (authorizing, friendly code))

-- `scdm_session_worker_authorize_user`
unfoldable pub authorize_user : WorkerHost → Worker → Option (Worker × Failure)
unfolding call after_acct_mgmt after_authorize excuse
authorize_user host worker =
    run_pam host (host.pam_acct_mgmt worker.password_is_required) worker >>= λ r.
    after_acct_mgmt host r.1 (call (acct_mgmt worker.password_is_required r.1) r.0) >>= λ s.
    after_authorize host (excuse s.0 s.1) s.0

-- The credentials that are asked for: `handle_establish_credentials` sets the flags.
unfoldable pub after_setcred : WorkerHost → PamCode → Worker → Option (Worker × Failure)
unfolding is_success finish report set_state
after_setcred host code worker =
    if not (is_success code)
    then finish host code worker (some (giving_credentials, host.pam_strerror code))
    else get_username host.pam_user worker >>= λ r.
        some (set_state accredited (report user_accredited r.0), none)

or_default : Option Bytes → Bytes → Bytes
or_default none default = default
or_default (some []) default = default
or_default (some (c ∷ cs)) default = c ∷ cs

-- The environment of the user database's entry; a user without a path gets the default one.
unfoldable pub set_user_environment : WorkerHost → (name : Bytes) → Passwd → Worker → Worker
unfolding set_environment_variable or_default
set_user_environment host name entry worker =
    let home = or_default entry.pw_dir (codes "/") in
    let set =
      λ (key : Bytes) (value : Bytes) (w : Worker). set_environment_variable key (some value) w in
    let environment = set (codes "SHELL") (or_default entry.pw_shell (codes "/bin/bash")) (
      set (codes "PWD") home (
        set (codes "HOME") home (
          set (codes "USERNAME") name
            (set (codes "USER") name (set (codes "LOGNAME") name worker))))) in
    let path = codes "/usr/local/bin:/usr/bin:/bin" in
    if is_some (host.pam_getenv (codes "PATH"))
    then environment
    else set (codes "PATH")
        (if bytes_eq host.bindir (codes "/usr/bin") then path else host.bindir ++ b':' ∷ path)
        environment

-- `_change_user`: the worker has the user's ids from here on, also if this fails.
unfoldable pub change_user : WorkerHost → (name : Bytes) → Passwd → Worker → Worker × Bool
change_user host name entry worker = (
  record worker { uid = entry.pw_uid; gid = entry.pw_gid },
  host.setgid entry.pw_gid && host.initgroups name entry.pw_gid,
)

unfoldable pub set_credentials : WorkerHost → Worker × Bool → Option (Worker × Failure)
unfolding finish call excuse after_setcred
set_credentials host (worker, false) =
    finish host system_err worker (some (giving_credentials, codes "Unable to change to user"))
set_credentials host (worker, true) = run_pam host host.pam_setcred worker >>= λ r.
    let asked = call (setcred r.0.cred_flags r.1) r.0 in after_setcred host (excuse asked r.1) asked

unfoldable pub accredit_entry :
    WorkerHost → (name : Bytes) → Option Passwd → Worker → Option (Worker × Failure)
unfolding finish set_user_environment change_user set_credentials
accredit_entry host name none worker =
    finish host authinfo_unavail worker
      (some (giving_credentials, codes "no user account available"))
accredit_entry host name (some entry) worker =
    set_credentials host (change_user host name entry (set_user_environment host name entry worker))

unfoldable pub accredit_name : WorkerHost → Option Bytes → Worker → Option (Worker × Failure)
unfolding finish accredit_entry
accredit_name host none worker =
    finish host user_unknown worker (some (giving_credentials, codes "no user account available"))
accredit_name host (some name) worker = accredit_entry host name (host.getpwnam name) worker

-- `scdm_session_worker_accredit_user`
unfoldable pub accredit_user : WorkerHost → Worker → Option (Worker × Failure)
unfolding accredit_name
accredit_user host worker = accredit_name host worker.username worker
