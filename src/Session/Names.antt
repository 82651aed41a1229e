-- ===== src/Session/Names.antt =====
-- daemon/scdm-session.c: session files and the commands in them, the names of the session and the
-- language that are used where none is selected, the type of the session and its display mode.
use scdm.Prelude.{
  Bool, true, false, not, ◌&&◌, Option, none, some, List, [], ◌∷◌, ◌++◌, if◌then◌else◌, ◌-◌, ltb,
  leb, Bytes, codes, bytes_eq, length, drop, ◌>>=◌,
}
use scdm.Session.Types.{
  Session, SessionHost, DesktopFile, Notice, default_language_name_changed,
  default_session_name_changed,
}
use scdm.Worker.Conversation.{take}
use scdm.Worker.Pam.{on_seat0}
use scdm.Worker.Types.{DisplayMode, reuse_vt, new_vt}

abbrev pub desktop : Bytes
desktop = codes ".desktop"

command_of : SessionHost → DesktopFile → Option Bytes
command_of host file = elim file.hidden [
  | some true ↦ none
  | _ ↦ elim file.try_exec [
    | none ↦ file.exec
    | some program ↦ if host.is_prog_in_path program then file.exec else none
  ]
]

-- `get_session_command_for_file`: not for a file that is hidden, or whose program is missing.
unfoldable pub get_session_command_for_file : SessionHost → (file : Bytes) → Option Bytes
unfolding command_of
get_session_command_for_file host file = host.load_from_dirs file >>= command_of host

unfoldable pub get_session_command_for_name : SessionHost → (name : Bytes) → Option Bytes
unfolding get_session_command_for_file
get_session_command_for_name host name = get_session_command_for_file host (name ++ desktop)

-- The name of a session file with a command in it.
name_of : SessionHost → (base_name : Bytes) → Option Bytes
name_of host base_name =
    let stem = length base_name - length desktop in
    if leb (length desktop) (length base_name) && bytes_eq (drop stem base_name) desktop
    then (get_session_command_for_file host base_name >>= λ command. some (take stem base_name))
    else none

-- `g_strcmp0`, whether the first comes before the second.
before : Bytes → Bytes → Bool
before [] ys = true
before (x ∷ xs) [] = false
before (x ∷ xs) (y ∷ ys) =
    let rest = before xs ys in if ltb x y then true else if ltb y x then false else rest

least : Option Bytes → Option Bytes → Option Bytes
unfolding before
least none other = other
least (some name) none = some name
least (some name) (some other) = some (if before name other then name else other)

-- The first of the names in order.
first_name : SessionHost → List Bytes → Option Bytes
unfolding name_of least
first_name host [] = none
first_name host (base_name ∷ rest) = least (name_of host base_name) (first_name host rest)

still_there : SessionHost → Option Bytes → Option Bytes
still_there host none = none
still_there host (some name) = get_session_command_for_name host name >>= λ command. some name

unfoldable pub fallback_name : SessionHost → Option Bytes → Option Bytes
unfolding first_name still_there get_session_command_for_name
fallback_name host cached = elim (still_there host cached) [
  | some name ↦ some name
  | none ↦ elim (still_there host (some (codes "gnome"))) [
    | some name ↦ some name
    | none ↦ first_name host host.base_names
  ]
]

-- `get_fallback_session_name`: the process ends where there is no session file.
unfoldable pub get_fallback_session_name : SessionHost → Session → Option (Session × Bytes)
unfolding fallback_name
get_fallback_session_name host self = fallback_name host self.fallback_session_name >>= λ name.
    some (record self { fallback_session_name = some name }, name)

or_fallback : SessionHost → Option Bytes → Session → Option (Session × Bytes)
unfolding get_fallback_session_name
or_fallback host none self = get_fallback_session_name host self
or_fallback host (some name) self = some (self, name)

unfoldable pub get_default_session_name : SessionHost → Session → Option (Session × Bytes)
unfolding or_fallback
get_default_session_name host self = or_fallback host self.saved_session self

or_default_name : SessionHost → Option Bytes → Session → Option (Session × Bytes)
unfolding get_default_session_name
or_default_name host none self = get_default_session_name host self
or_default_name host (some name) self = some (self, name)

unfoldable pub get_session_name : SessionHost → Session → Option (Session × Bytes)
unfolding or_default_name
get_session_name host self = or_default_name host self.selected_session self

unfoldable pub lookup_variable : Bytes → List (Bytes × Bytes) → Option Bytes
lookup_variable key [] = none
lookup_variable key ((name, value) ∷ rest) =
    let later = lookup_variable key rest in if bytes_eq key name then some value else later

or_else : Option Bytes → Option Bytes → Option Bytes
or_else none other = other
or_else (some name) other = some name

unfoldable pub get_default_language_name : SessionHost → Session → Option Bytes
unfolding or_else lookup_variable
get_default_language_name host self =
    or_else self.saved_language
      (or_else (lookup_variable (codes "LANG") self.environment) host.locale)

wayland_file : SessionHost → Option DesktopFile → Bool
wayland_file host none = false
wayland_file host (some file) = host.is_wayland_path file.full_path

-- `scdm_session_is_wayland_session`
unfoldable pub is_wayland_session : SessionHost → Session → Option (Session × Bool)
unfolding get_session_name wayland_file
is_wayland_session host self = get_session_name host self >>= λ r.
    some (r.0, wayland_file host (host.load_from_dirs (r.1 ++ desktop)))

unfoldable pub update_session_type : SessionHost → Session → Option Session
unfolding is_wayland_session
update_session_type host self =
    if host.wayland_support
    then (is_wayland_session host self >>= λ r.
        some (record r.0 { session_type = if r.1 then some (codes "wayland") else none }))
    else some self

unfoldable pub tell : Notice → Session → Session
tell notice self = record self { notices = notice ∷ self.notices }

tell_language : Option Bytes → Session → Session
unfolding tell
tell_language none self = self
tell_language (some name) self = tell (default_language_name_changed name) self

-- `scdm_session_defaults_changed`
unfoldable pub defaults_changed : SessionHost → Session → Option Session
unfolding update_session_type get_default_language_name get_default_session_name tell tell_language
defaults_changed host self = update_session_type host self >>= λ typed.
    if typed.greeter_interface
    then (get_default_session_name host (tell_language (get_default_language_name host typed) typed)
        >>= λ r. some (tell (default_session_name_changed r.1) r.0))
    else some typed

unfoldable pub is_wayland_type : Option Bytes → Bool
is_wayland_type none = false
is_wayland_type (some text) = bytes_eq text (codes "wayland")

-- `scdm_session_get_display_mode`
unfoldable pub get_display_mode : SessionHost → Session → DisplayMode
unfolding is_wayland_type
get_display_mode host self =
    if not (on_seat0 self.display_seat_id)
    then reuse_vt
    else if host.user_display_server
    then new_vt
    else if host.wayland_support && is_wayland_type self.session_type
    then new_vt
    else reuse_vt
