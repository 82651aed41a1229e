-- ===== src/AccessFile.antt =====
-- daemon/scdm-display-access-file.c: the X authority file of a display. The directory, the random
-- bytes and the writes of libXau are outside the program, and come as the arguments of `XauthHost`.
-- A file that is closed has neither a stream (`fp`) nor a path.
pub mod Laws
use scdm.Prelude.{
  ℕ, Bool, true, false, ◌&&◌, Option, none, some, List, [], ◌∷◌, ◌++◌, if◌then◌else◌, Bytes, codes,
  is_some, not,
}

pub data Family : Type 0 where
  family_local family_wild : Family

-- The fields of an `Xauth` record; `number` is the display number that is printed in decimal.
pub record XauthEntry : Type 0 where
  pub family : Family
  pub address : Bytes
  pub number : ℕ
  pub name : Bytes
  pub cookie : Bytes

pub record AccessFile : Type 0 where
  pub username : Bytes
  pub fp : Bool
  pub path : Option Bytes
  pub entries : List XauthEntry

-- What the system answers: the path of the new file, random bytes, whether each of the two writes
-- (`XauWriteAuth` and `fflush`) succeeds, and the host name.
pub record XauthHost : Type 0 where
  pub create_file : Bytes → Option Bytes
  pub random_bytes : Option Bytes
  pub write_first : Bool
  pub write_second : Bool
  pub hostname : Option Bytes

-- What the file needs to know of its display.
pub record DisplayInfo : Type 0 where
  pub is_local : Bool
  pub remote_hostname : Bytes
  pub display_number : ℕ

unfoldable pub new : Bytes → AccessFile
new username = record { username = username; fp = false; path = none; entries = [] }

open_path : AccessFile → Option Bytes → AccessFile × Bool
open_path file none = (file, false)
open_path file (some path) = (record file { fp = true; path = some path }, true)

-- `scdm_display_access_file_open`; a file that is open already is refused.
unfoldable pub open_file : XauthHost → AccessFile → AccessFile × Bool
unfolding open_path
open_file host file =
    if file.fp
    then (file, false)
    else if is_some file.path
    then (file, false)
    else open_path file (host.create_file file.username)

local_address : Option Bytes → Bytes
local_address none = codes "localhost"
local_address (some hostname) = hostname

unfoldable pub get_auth_info_for_display : XauthHost → DisplayInfo → Bytes → XauthEntry
unfolding local_address
get_auth_info_for_display host display cookie = record {
  family = if display.is_local then family_local else family_wild;
  address = if display.is_local then local_address host.hostname else display.remote_hostname;
  number = display.display_number;
  name = codes "MIT-MAGIC-COOKIE-1";
  cookie = cookie;
}

-- One `XauWriteAuth` with its `fflush`: a write that fails adds nothing.
write_entry : Bool → AccessFile → XauthEntry → AccessFile
write_entry written file entry =
    if written then record file { entries = file.entries ++ entry ∷ [] } else file

-- If a FamilyLocal entry was written, a FamilyWild entry follows.
write_wild : XauthHost → AccessFile → Bool → XauthEntry → Family → AccessFile × Bool
unfolding write_entry
write_wild host file added entry family_wild = (file, added)
write_wild host file added entry family_local = (
  write_entry host.write_second file (record entry { family = family_wild }),
  (if host.write_second then true else added),
)

write_display : XauthHost → AccessFile → XauthEntry → AccessFile × Bool
unfolding write_entry write_wild
write_display host file entry =
    write_wild host (write_entry host.write_first file entry) host.write_first entry entry.family

-- A missing path or cookie is refused.
unfoldable pub add_display_with_cookie :
    XauthHost → DisplayInfo → Option Bytes → AccessFile → AccessFile × Bool
unfolding write_display
add_display_with_cookie host display none file = (file, false)
add_display_with_cookie host display (some cookie) file =
    if is_some file.path
    then write_display host file (get_auth_info_for_display host display cookie)
    else (file, false)

keep_cookie : Bytes → AccessFile × Bool → AccessFile × Option Bytes
keep_cookie cookie (file, true) = (file, some cookie)
keep_cookie cookie (file, false) = (file, none)

add_random : XauthHost → DisplayInfo → AccessFile → Option Bytes → AccessFile × Option Bytes
unfolding keep_cookie
add_random host display file none = (file, none)
add_random host display file (some cookie) =
    keep_cookie cookie (add_display_with_cookie host display (some cookie) file)

-- The new cookie, or `none` when the call fails.
unfoldable pub add_display : XauthHost → DisplayInfo → AccessFile → AccessFile × Option Bytes
unfolding add_random
add_display host display file =
    if is_some file.path then add_random host display file host.random_bytes else (file, none)

-- The database and its directory are removed, and the file is closed.
unfoldable pub close : AccessFile → AccessFile
close file =
    if not file.fp
    then file
    else if not (is_some file.path)
    then file
    else record file { path = none; fp = false }
