-- ===== src/Display/Setup.antt =====
-- daemon/scdm-display.c: how a display is prepared and managed, and whether initial setup runs. The
-- classes' own `prepare` and `manage` are the operations of `DisplayClass`.
use scdm.Display.{Display, unmanaged, status_eq}
use scdm.Prelude.{
  ℕ, Bool, true, false, not, Option, none, some, [], ◌∷◌, if◌then◌else◌, ltb, ◌==◌, Bytes, codes,
  bytes_eq,
}

-- The answers of accountsservice (`none` for a failure, else how many users are cached), of the boot
-- marker, of the kernel command line (`none` if it cannot be read or has no argument), of the
-- session files and of the setting.
pub record SetupHost : Type 0 where
  pub cached_users : Option ℕ
  pub already_done : Bool
  pub setup_argument : Option Bytes
  pub can_create_environment : Bool
  pub setting : Option Bool

-- The virtual methods of a class; `manage` may be missing.
pub record DisplayClass : Type 0 where
  pub prepare : Display → Display × Bool
  pub manage : Option (Display → Display)

-- `setup_argument[0] == '1'`, where an empty string starts with its end.
unfoldable pub is_forced : Bytes → Bool
is_forced [] = false
is_forced (c ∷ cs) = c == b'1'

enabled : Option Bool → Bool
enabled none = false
enabled (some setting) = setting

unforced : SetupHost → Display → Bool
unfolding enabled
unforced host self =
    if not self.is_local
    then false
    else if self.have_existing_user_accounts
    then false
    else if not host.can_create_environment
    then false
    else enabled host.setting

wants_setup : SetupHost → Display → Option Bytes → Bool
unfolding is_forced unforced
wants_setup host self (some argument) = is_forced argument
wants_setup host self none = unforced host self

unfoldable pub wants_initial_setup : SetupHost → Display → Bool
unfolding wants_setup
wants_initial_setup host self =
    if host.already_done then false else wants_setup host self host.setup_argument

-- The flag for existing accounts is set, or the call fails.
unfoldable pub look_for_existing_users : Option ℕ → Display → Option Display
look_for_existing_users none self = none
look_for_existing_users (some users) self =
    some (record self { have_existing_user_accounts = ltb 0 users })

unfoldable pub prepare_looked : SetupHost → DisplayClass → Option Display → Option (Display × Bool)
prepare_looked host class none = none
prepare_looked host class (some self) =
    some (class.prepare (record self { doing_initial_setup = wants_initial_setup host self }))

-- `scdm_display_prepare`: the process exits when accountsservice fails.
unfoldable pub prepare : SetupHost → DisplayClass → Display → Option (Display × Bool)
unfolding look_for_existing_users prepare_looked wants_initial_setup
prepare host class self = prepare_looked host class (look_for_existing_users host.cached_users self)

unfoldable pub is_greeter : Option Bytes → Bool
is_greeter none = false
is_greeter (some class) = bytes_eq class (codes "greeter")

unfoldable pub run_manage : Option (Display → Display) → Display → Display
run_manage none self = self
run_manage (some manage) self = manage self

unfoldable pub manage_prepared : DisplayClass → Option (Display × Bool) → Option (Display × Bool)
unfolding is_greeter run_manage
manage_prepared class none = none
manage_prepared class (some (self, false)) = some (self, false)
manage_prepared class (some (self, true)) =
    some ((if is_greeter self.session_class then run_manage class.manage self else self), true)

-- `scdm_display_manage`: a display that was not prepared is prepared first.
unfoldable pub manage : SetupHost → DisplayClass → Display → Option (Display × Bool)
unfolding manage_prepared status_eq
manage host class self =
    manage_prepared class
      (if status_eq self.status unmanaged then prepare host class self else some (self, true))
