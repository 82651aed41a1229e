-- ===== src/AccessFile/Laws.antt =====
-- Laws of daemon/scdm-display-access-file.c: what an authority file holds after a display was added,
-- and when its operations are refused.
use scdm.Prelude.{
  ◌≡◌, true, false, none, some, [], ◌∷◌, ◌++◌, arith, Bytes, is_some, ◌||◌, if◌then◌else◌,
}
use mathlib.Core.List.{append-nil, append_assoc}
use scdm.AccessFile.{
  AccessFile, XauthHost, XauthEntry, DisplayInfo, family_local, family_wild, open_file,
  get_auth_info_for_display, add_display_with_cookie, add_display, close,
}

-- The stream and the path are set and cleared together.
unfoldable pub IsPaired : AccessFile → Type 0
IsPaired file = file.fp ≡ is_some file.path

pub open_file-IsPaired :
    (host : XauthHost) (file : AccessFile) → IsPaired file → IsPaired (open_file host file).0
unfolding open_file IsPaired
open_file-IsPaired host file h = ground (arith, h)

pub add_display-IsPaired :
    (host : XauthHost) (d : DisplayInfo) (file : AccessFile)
    → IsPaired file
    → IsPaired (add_display host d file).0
unfolding add_display add_display_with_cookie get_auth_info_for_display IsPaired
add_display-IsPaired host d file h = ground (arith, h)

-- Closing a well-formed file leaves it closed, and a closed file can be opened again.
pub open_file-close :
    (host : XauthHost) (file : AccessFile) (path : Bytes)
    → IsPaired file
    → host.create_file file.username ≡ some path
    → ((close file).fp ≡ false)
      × ((open_file host (close file)).1 ≡ true)
      × ((open_file host (close file)).0.path ≡ some path)
unfolding open_file close IsPaired
open_file-close host file path h e = ground (arith, h)

abbrev pub wild : XauthEntry → XauthEntry
wild entry = record entry { family = family_wild }

-- A remote display that is added successfully has one more entry, which is for any host and holds
-- the new cookie.
pub add_display_remote :
    (host : XauthHost) (d : DisplayInfo) (file : AccessFile) (cookie : Bytes)
    → d.is_local ≡ false
    → (add_display host d file).1 ≡ some cookie
    → (host.random_bytes ≡ some cookie)
      × ((add_display host d file).0.entries
          ≡ file.entries ++ get_auth_info_for_display host d cookie ∷ [])
      × ((get_auth_info_for_display host d cookie).family ≡ family_wild)
unfolding add_display add_display_with_cookie get_auth_info_for_display
add_display_remote host d file cookie r e = ground (arith, r, e)

-- Adding a local display to an open file succeeds exactly when random bytes are at hand and one of
-- the two writes goes through; the entries for this host and for any host are written in that
-- order, each if its own write succeeds, with the same cookie.
pub add_display_local :
    (host : XauthHost) (d : DisplayInfo) (file : AccessFile) (path cookie : Bytes)
    → d.is_local ≡ true
    → file.path ≡ some path
    → host.random_bytes ≡ some cookie
    → let entry = get_auth_info_for_display host d cookie in
      ((add_display host d file).1
        ≡ (if host.write_first || host.write_second then some cookie else none))
      × (entry.family ≡ family_local)
      × ((add_display host d file).0.entries
          ≡ file.entries
            ++ ((if host.write_first then entry ∷ [] else [])
                ++ (if host.write_second then wild entry ∷ [] else [])))
unfolding add_display add_display_with_cookie get_auth_info_for_display
add_display_local host d file path cookie l p r = ground (
  arith,
  l,
  p,
  r,
  append-nil file.entries,
  append_assoc file.entries (get_auth_info_for_display host d cookie ∷ [])
      (wild (get_auth_info_for_display host d cookie) ∷ []),
)
