-- ===== src/SessionSettings.antt =====
-- daemon/scdm-session-settings.c: the session and the language that a user has chosen, which
-- accountsservice keeps. An `ActUser` is what accountsservice tells of a user. The functions return
-- the properties that they notify of, in order; the writes to accountsservice are a log.
use scdm.Prelude.{
  Bool, true, false, not, Option, none, some, List, [], ◌∷◌, ◌++◌, if◌then◌else◌, Bytes, bytes_eq,
}

pub record ActUser : Type 0 where
  pub is_loaded : Bool
  pub x_session : Option Bytes
  pub language : Option Bytes

pub data Notify : Type 0 where
  session_name_changed language_name_changed is_loaded_changed : Notify

-- `loading` says whether the handler of the user's `notify::is-loaded` is connected.
pub record SessionSettings : Type 0 where
  pub user : Option ActUser
  pub loading : Bool
  pub session_name : Option Bytes
  pub language_name : Option Bytes
  pub saved : List (Option Bytes × Option Bytes)

abbrev pub new : SessionSettings
new = record { user = none; loading = false; session_name = none; language_name = none; saved = [] }

user_is_loaded : Option ActUser → Bool
user_is_loaded none = false
user_is_loaded (some user) = user.is_loaded

unfoldable pub is_loaded : SessionSettings → Bool
unfolding user_is_loaded
is_loaded settings = user_is_loaded settings.user

same_name : Option Bytes → Bytes → Bool
same_name none name = false
same_name (some old) name = bytes_eq old name

unfoldable pub set_language_name : Bytes → SessionSettings → SessionSettings × List Notify
unfolding same_name
set_language_name name settings =
    if same_name settings.language_name name
    then (settings, [])
    else (record settings { language_name = some name }, language_name_changed ∷ [])

unfoldable pub set_session_name : Bytes → SessionSettings → SessionSettings × List Notify
unfolding same_name
set_session_name name settings =
    if same_name settings.session_name name
    then (settings, [])
    else (record settings { session_name = some name }, session_name_changed ∷ [])

set_if_some :
    (Bytes → SessionSettings → SessionSettings × List Notify)
    → Option Bytes
    → SessionSettings
    → SessionSettings × List Notify
set_if_some set none settings = (settings, [])
set_if_some set (some name) settings = set name settings

unfoldable pub load_settings_from_user : ActUser → SessionSettings → SessionSettings × List Notify
unfolding set_if_some set_session_name set_language_name
load_settings_from_user user settings =
    let (named, first) = set_if_some set_session_name user.x_session settings in
    let (spoken, second) = set_if_some set_language_name user.language named in
    if user.is_loaded then (spoken, first ++ (second ++ is_loaded_changed ∷ [])) else (settings, [])

load_named : (Bytes → ActUser) → Bytes → SessionSettings → SessionSettings × List Notify × Bool
unfolding load_settings_from_user
load_named act_user username settings =
    let user = act_user username in
    let found = record settings { user = some user; loading = not user.is_loaded } in
    if user.is_loaded
    then (let (loaded, notes) = load_settings_from_user user found in (loaded, notes, true))
    else (found, [], false)

-- `scdm_session_settings_load`: it fails at once for settings that are loaded, and without a name.
unfoldable pub load :
    (Bytes → ActUser) → Option Bytes → SessionSettings → SessionSettings × List Notify × Bool
unfolding load_named
load act_user none settings = (settings, [], false)
load act_user (some username) settings =
    if is_loaded settings then (settings, [], false) else load_named act_user username settings

-- `on_user_is_loaded_changed`, with what accountsservice tells now; it is disconnected then.
unfoldable pub on_user_is_loaded_changed : ActUser → SessionSettings → SessionSettings × List Notify
unfolding load_settings_from_user
on_user_is_loaded_changed user settings =
    if user.is_loaded
    then load_settings_from_user user (record settings { user = some user; loading = false })
    else (record settings { user = some user }, [])

-- `scdm_session_settings_save`
unfoldable pub save : (Bytes → ActUser) → Option Bytes → SessionSettings → SessionSettings × Bool
save act_user none settings = (settings, false)
save act_user (some username) settings =
    if is_loaded settings
    then (let user = act_user username in
        if user.is_loaded
        then (
          record settings {
            saved = (settings.session_name, settings.language_name) ∷ settings.saved;
          },
          true,
        )
        else (settings, false))
    else (settings, false)
