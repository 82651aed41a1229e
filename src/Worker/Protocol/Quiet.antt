-- ===== src/Worker/Protocol/Quiet.antt =====
-- What leaves the protocol alone: the conversation, the user's name and settings, and the terminal
-- (daemon/scdm-session-worker.c).
use scdm.Prelude.{
  ℕ, zero, suc, ◌≡◌, ◌∙◌, ap, sym, refl, Bool, true, false, Option, none, some, List, [], ◌∷◌,
  arith, if◌then◌else◌, Bytes, Holds, bind-Holds, if-Holds, weaken-Holds,
}
use scdm.SessionSettings
use scdm.SessionSettings.{
  ActUser, Notify, session_name_changed, language_name_changed, is_loaded_changed,
}
use scdm.Worker.Protocol.{View, view, stage_of, credited}
use scdm.Worker.State.{
  state_eq, set_state, emit, queue_state_change, save_account_details_now, loaded_in,
  on_settings_is_loaded_changed, emit_times, notified, notify_all, load_settings, audit_name,
  got_username, get_username, try_settings, renamed, update_username, same_username,
}
use scdm.Worker.Types.{
  State, state_none, setup_complete, authenticated, authorized, accredited, account_details_saved,
  session_opened, session_started, Signal, username_changed, Worker,
}

-- A run that does not end leaves this view.
abbrev pub Leaves : View → Option Worker → Type 0
Leaves v = Holds (λ w. view w ≡ v)

abbrev pub LeavesWith : {A : Type 0} → View → Option (Worker × A) → Type 0
LeavesWith v = Holds (λ r. view r.0 ≡ v)

-- A run that goes on from a worker of this view.
pub go_on :
    {A : Type 0} (f : A → View) (u v : View) (o : Option A)
    → u ≡ v
    → Holds (λ a. f a ≡ u) o
    → Holds (λ a. f a ≡ v) o
go_on f u v o e h = weaken-Holds (λ a. f a ≡ u) (λ a. f a ≡ v) o (λ a k. k ∙ e) h

pub state_eq_sound : (s t : State) → state_eq s t ≡ true → s ≡ t
unfolding state_eq
state_eq_sound s t e = ground (arith, e)

pub if-view :
    (b : Bool) (x y : Worker) (v : View) → view x ≡ v → view y ≡ v → view (if b then x else y) ≡ v
if-view true x y v h k = h
if-view false x y v h k = k

pub queue-view : (w : Worker) → view (queue_state_change w) ≡ view w
unfolding queue_state_change view
queue-view w = if-view w.state_change_queued _ _ (view w) refl refl

pub set_state-view :
    (s : State) (w : Worker) → view (set_state s w) ≡ record (view w) { at = stage_of s }
unfolding set_state view
set_state-view s w = go (state_eq w.state s) refl
  where
    go :
        (b : Bool)
        → state_eq w.state s ≡ b
        → view (if b then w else record w { state = s; state_changes = s ∷ w.state_changes })
          ≡ record (view w) { at = stage_of s }
    go true e = ap (λ t. record (view w) { at = stage_of t }) (state_eq_sound w.state s e)
    go false e = refl

pub audit_name-view : (name : Option Bytes) (w : Worker) → view (audit_name name w) ≡ view w
unfolding audit_name view
audit_name-view name w = if-view w.auditor _ _ (view w) refl refl

-- The details of a user whose credentials are set are saved in the same stage.
pub save-Leaves :
    (act_user : Bytes → ActUser) (w : Worker)
    → w.state ≡ accredited
    → Leaves (view w) (save_account_details_now act_user w)
unfolding save_account_details_now view
save-Leaves act_user w e =
    if-Holds (λ x. view x ≡ view w) (state_eq w.state accredited) _ none
      (λ _. queue-view _ ∙ (set_state-view account_details_saved w ∙ same)) (λ _. tt)
  where
    same : record (view w) { at = credited } ≡ view w
    same = ap (λ t. record (view w) { at = stage_of t }) (sym e)

emit_times-view : (n : ℕ) (signal : Signal) (w : Worker) → view (emit_times n signal w) ≡ view w
unfolding emit_times view
emit_times-view zero signal w = refl
emit_times-view (suc n) signal w = emit_times-view n signal (emit signal w)

loaded_in-Leaves :
    (act_user : Bytes → ActUser) (s : State) (w : Worker)
    → w.state ≡ s
    → Leaves (view w) (loaded_in act_user s w)
unfolding loaded_in view
loaded_in-Leaves act_user state_none w e = queue-view w
loaded_in-Leaves act_user accredited w e =
    bind-Holds (λ x. view x ≡ view w) (λ x. view x ≡ view w) (save_account_details_now act_user w) _
      (save-Leaves act_user w e) (λ x h. h)
loaded_in-Leaves act_user setup_complete w e = refl
loaded_in-Leaves act_user authenticated w e = refl
loaded_in-Leaves act_user authorized w e = refl
loaded_in-Leaves act_user account_details_saved w e = refl
loaded_in-Leaves act_user session_opened w e = refl
loaded_in-Leaves act_user session_started w e = refl

loaded_changed-Leaves :
    (act_user : Bytes → ActUser) (w : Worker)
    → Leaves (view w) (on_settings_is_loaded_changed act_user w)
unfolding on_settings_is_loaded_changed view
loaded_changed-Leaves act_user w =
    if-Holds (λ x. view x ≡ view w) (SessionSettings.is_loaded w.user_settings) _ _
      (λ _. loaded_in-Leaves act_user w.state (record w { name_handlers = 0 }) refl) (λ _. refl)

notified-Leaves :
    (act_user : Bytes → ActUser) (note : Notify) (w : Worker)
    → Leaves (view w) (notified act_user note w)
unfolding notified
notified-Leaves act_user session_name_changed w = emit_times-view w.name_handlers _ w
notified-Leaves act_user language_name_changed w = emit_times-view w.name_handlers _ w
notified-Leaves act_user is_loaded_changed w =
    if-Holds (λ x. view x ≡ view w) w.loaded_handler _ _ (λ _. loaded_changed-Leaves act_user w)
      (λ _. refl)

pub notify_all-Leaves :
    (act_user : Bytes → ActUser) (notes : List Notify) (w : Worker)
    → Leaves (view w) (notify_all act_user notes w)
unfolding notify_all
notify_all-Leaves act_user [] w = refl
notify_all-Leaves act_user (note ∷ rest) w =
    bind-Holds (λ x. view x ≡ view w) (λ x. view x ≡ view w) (notified act_user note w) _
      (notified-Leaves act_user note w)
      (λ x h.
        go_on view (view x) (view w) (notify_all act_user rest x) h
          (notify_all-Leaves act_user rest x))

pub load_settings-Leaves :
    (act_user : Bytes → ActUser) (username : Option Bytes) (w : Worker)
    → LeavesWith (view w) (load_settings act_user username w)
unfolding load_settings view
load_settings-Leaves act_user username w =
    let (settings, notes, ok) = SessionSettings.load act_user username w.user_settings in
    bind-Holds (λ x. view x ≡ view w) (λ r. view r.0 ≡ view w)
      (notify_all act_user notes (record w { user_settings = settings })) _
      (notify_all-Leaves act_user notes (record w { user_settings = settings })) (λ x h. h)

pub get_username-Leaves :
    (item : Option (Option Bytes)) (w : Worker) → LeavesWith (view w) (get_username item w)
unfolding get_username got_username
get_username-Leaves none w =
    if-Holds (λ r. view r.0 ≡ view w) w.pam_handle _ none (λ _. refl) (λ _. tt)
get_username-Leaves (some name) w =
    if-Holds (λ r. view r.0 ≡ view w) w.pam_handle _ none (λ _. audit_name-view name w) (λ _. tt)

try_settings-Leaves :
    (act_user : Bytes → ActUser) (name : Option Bytes) (w : Worker)
    → Leaves (view w) (try_settings act_user name w)
unfolding try_settings
try_settings-Leaves act_user none w = refl
try_settings-Leaves act_user (some []) w = refl
try_settings-Leaves act_user (some (c ∷ cs)) w =
    if-Holds (λ x. view x ≡ view w) (SessionSettings.is_loaded w.user_settings) _ _ (λ _. refl)
      (λ _.
        bind-Holds (λ r. view r.0 ≡ view w) (λ x. view x ≡ view w)
          (load_settings act_user (some (c ∷ cs)) w) _
          (load_settings-Leaves act_user (some (c ∷ cs)) w) (λ r h. h))

renamed-Leaves :
    (act_user : Bytes → ActUser) (found : Option (Option Bytes)) (w : Worker)
    → Leaves (view w) (renamed act_user found w)
unfolding renamed view emit
renamed-Leaves act_user none w = refl
renamed-Leaves act_user (some name) w =
    let old = audit_name w.username w in
    let new = emit (username_changed name) (record old { username = name }) in
    if-Holds (λ x. view x ≡ view w) (same_username w.username name) _ _
      (λ _. audit_name-view w.username w)
      (λ _.
        weaken-Holds (λ x. view x ≡ view new) (λ x. view x ≡ view w)
          (try_settings act_user name new) (λ x h. h ∙ audit_name-view w.username w)
          (try_settings-Leaves act_user name new))

pub update_username-Leaves :
    (act_user : Bytes → ActUser) (item : Option (Option Bytes)) (w : Worker)
    → Leaves (view w) (update_username act_user item w)
unfolding update_username
update_username-Leaves act_user item w =
    bind-Holds (λ r. view r.0 ≡ view w) (λ x. view x ≡ view w) (get_username item w) _
      (get_username-Leaves item w)
      (λ r h.
        go_on view (view r.0) (view w) (renamed act_user r.1 r.0) h
          (renamed-Leaves act_user r.1 r.0))
