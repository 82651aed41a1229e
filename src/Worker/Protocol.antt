-- ===== src/Worker/Protocol.antt =====
-- The order of PAM calls that a login needs, told from the log of the calls alone, and how the state
-- of a session worker (daemon/scdm-session-worker.c) stands to it.
pub mod Quiet
pub mod Talk
pub mod Close
pub mod Login
pub mod Authorize
pub mod Accredit
pub mod Start
pub mod Terminal
pub mod Open
pub mod Answers
pub mod Methods
pub mod Run
pub mod History
use scdm.Prelude.{
  ℕ, ◌+◌, ◌≡◌, ◌∙◌, ap, refl, Bool, true, false, Option, none, some, List, [], ◌∷◌, length, count,
}
use scdm.Worker.Types.{
  State, state_none, setup_complete, authenticated, authorized, accredited, account_details_saved,
  session_opened, session_started, PamCode, success, new_authtok_reqd, CredFlags, delete_cred,
  PamCall, start, set_item, put_env, authenticate, acct_mgmt, chauthtok, setcred, open_session,
  close_session, end_pam, Audit, login, logout, Reply, Spawn, Worker,
}

-- How far a login has come: who the user is, whether the account is good, perhaps but for a password
-- that has expired, whether the credentials are set, and whether a session is open.
pub data Stage : Type 0 where
  closed begun identified expired allowed credited opened : Stage

unfoldable pub on_start : PamCode → Stage → Stage
on_start success closed = begun
on_start _ stage = stage

unfoldable pub on_authenticate : PamCode → Stage → Stage
on_authenticate success begun = identified
on_authenticate _ stage = stage

unfoldable pub after_acct : (excused : Bool) → PamCode → Stage
after_acct true code = allowed
after_acct false success = allowed
after_acct false new_authtok_reqd = expired
after_acct false _ = identified

unfoldable pub on_acct : (excused : Bool) → PamCode → Stage → Stage
unfolding after_acct
on_acct excused code identified = after_acct excused code
on_acct excused code stage = stage

unfoldable pub on_chauthtok : PamCode → Stage → Stage
on_chauthtok success expired = allowed
on_chauthtok _ stage = stage

unfoldable pub on_setcred : (excused : Bool) → PamCode → Stage → Stage
on_setcred true code allowed = credited
on_setcred false success allowed = credited
on_setcred _ _ stage = stage

unfoldable pub on_open : PamCode → Stage → Stage
on_open success credited = opened
on_open _ stage = stage

-- A successful call takes a login one stage further, from the stage before that one only. Who
-- authenticates again is excused from the account's state and the credentials.
unfoldable pub advance : (excused : Bool) → PamCall → Stage → Stage
unfolding on_start on_authenticate on_acct on_chauthtok on_setcred on_open
advance excused (start code) stage = on_start code stage
advance excused (authenticate flag code) stage = on_authenticate code stage
advance excused (acct_mgmt flag code) stage = on_acct excused code stage
advance excused (chauthtok code) stage = on_chauthtok code stage
advance excused (setcred flags code) stage = on_setcred excused code stage
advance excused (open_session flag code) stage = on_open code stage
advance excused (set_item item value code) stage = stage
advance excused (put_env key value) stage = stage
advance excused close_session stage = stage
advance excused (end_pam code) stage = closed

-- The stage that a log of calls, newest first, has come to.
unfoldable pub stage : (excused : Bool) → List PamCall → Stage
unfolding advance
stage excused [] = closed
stage excused (c ∷ earlier) = advance excused c (stage excused earlier)

-- The stage that a state stands for.
unfoldable pub stage_of : State → Stage
stage_of state_none = closed
stage_of setup_complete = begun
stage_of authenticated = identified
stage_of authorized = allowed
stage_of accredited = credited
stage_of account_details_saved = credited
stage_of session_opened = opened
stage_of session_started = opened

unfoldable pub has_handle : Stage → Bool
has_handle closed = false
has_handle _ = true

abbrev pub is_login : Audit → Bool
is_login login = true
is_login _ = false

abbrev pub is_logout : Audit → Bool
is_logout logout = true
is_logout _ = false

abbrev pub open_sessions : Stage → ℕ
open_sessions opened = 1
open_sessions _ = 0

-- What of a worker the protocol is about, and what a reply or a started program would change.
pub record View : Type 0 where
  pub at : Stage
  pub handle : Bool
  pub calls : List PamCall
  pub excused : Bool
  pub audit : List Audit
  pub replies : List (ℕ × Reply)
  pub pending : Option ℕ
  pub spawned : List Spawn

unfoldable pub view : Worker → View
unfolding stage_of
view worker = record {
  at = stage_of worker.state;
  handle = worker.pam_handle;
  calls = worker.calls;
  excused = worker.is_reauth_session;
  audit = worker.audit;
  replies = worker.replies;
  pending = worker.pending_invocation;
  spawned = worker.spawned;
}

-- The state is that of the calls, PAM is in use from the first stage on, and the audit reports one
-- login more than logouts exactly while a session is open.
abbrev pub Follows : View → Type 0
Follows v =
    (stage v.excused v.calls ≡ v.at)
    × (v.handle ≡ has_handle v.at)
    × (count is_login v.audit ≡ count is_logout v.audit + open_sessions v.at)

abbrev pub SameLedger : View → View → Type 0
SameLedger from v =
    (v.replies ≡ from.replies) × (v.pending ≡ from.pending) × (v.spawned ≡ from.spawned)

-- The same, with replies, a pending invocation and started programs as they were.
abbrev pub FollowsFrom : View → View → Type 0
FollowsFrom from v = Follows v × SameLedger from v

-- The same, where a program may have been started.
abbrev pub FollowsBut : View → View → Type 0
FollowsBut from v = Follows v × (v.replies ≡ from.replies) × (v.pending ≡ from.pending)

-- PAM is in use, the audit fits the state, and the rest is as it was: a step that fails from here
-- comes to an end in order.
abbrev pub CanClose : View → View → Type 0
CanClose from v =
    (v.handle ≡ true)
    × (count is_login v.audit ≡ count is_logout v.audit + open_sessions v.at)
    × SameLedger from v

-- A call that takes the login to another stage, with the state.
pub advance-Follows :
    (from v : View) (c : PamCall) (s t : Stage)
    → FollowsFrom from v
    → v.at ≡ s
    → advance v.excused c s ≡ t
    → has_handle s ≡ has_handle t
    → open_sessions s ≡ open_sessions t
    → FollowsFrom from (record v { calls = c ∷ v.calls; at = t })
unfolding stage
advance-Follows from v c s t (follows, same) e next handles opens = (
  (
    ap (advance v.excused c) (follows.0 ∙ e) ∙ next,
    follows.1 ∙ (ap has_handle e ∙ handles),
    follows.2 ∙ ap (λ n. count is_logout v.audit + n) (ap open_sessions e ∙ opens),
  ),
  same,
)

-- PAM is in use in every stage but the first.
pub follows-CanClose :
    (from v : View) (s : Stage) (cs : List PamCall)
    → FollowsFrom from v
    → v.at ≡ s
    → has_handle s ≡ true
    → CanClose from (record v { calls = cs })
follows-CanClose from v s cs (follows, same) e in_use =
    (follows.1 ∙ (ap has_handle e ∙ in_use), follows.2, same)
