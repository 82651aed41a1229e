-- ===== src/Worker/Extensions.antt =====
-- pam-extensions/scdm-pam-extensions.h, and filter_extensions of daemon/scdm-session-worker.c: the
-- names of PAM extensions that the worker advertises to PAM modules in an environment variable, and
-- what it makes of the type of a binary message. The block that the variable stands in is an array
-- of `_POSIX_ARG_MAX` bytes.
pub mod Names
pub mod Block
use scdm.Prelude.{
  ℕ, zero, suc, ◌+◌, ◌-◌, Bool, true, false, not, ◌&&◌, Option, none, some, List, [], ◌∷◌, ◌++◌,
  if◌then◌else◌, ◌==◌, ltb, leb, Bytes, codes, bytes_eq, length,
}

abbrev pub posix_arg_max : ℕ
posix_arg_max = 4096

abbrev pub uchar_max : ℕ
uchar_max = 255

abbrev pub choice_list : Bytes
choice_list = codes "io.github.scarecrow_de.DisplayManager.UserVerifier.ChoiceList"

abbrev pub supported_pam_extensions : List Bytes
supported_pam_extensions = choice_list ∷ []

unfoldable pub contains : Bytes → List Bytes → Bool
contains name [] = false
contains name (x ∷ xs) = if bytes_eq name x then true else contains name xs

-- `filter_extensions`: the names that are supported, as often as they are given.
unfoldable pub filter_extensions : List Bytes → List Bytes
unfolding contains
filter_extensions [] = []
filter_extensions (name ∷ rest) =
    if contains name supported_pam_extensions
    then name ∷ filter_extensions rest
    else filter_extensions rest

-- The loop of ADVERTISE_SUPPORTED_EXTENSIONS that measures: the names that still fit, with a space
-- for each. The size starts at that of an empty text, not of the variable's name.
unfoldable pub fitting : (size left : ℕ) → List Bytes → List Bytes
fitting size zero names = []
fitting size (suc left) [] = []
fitting size (suc left) (name ∷ rest) =
    if leb posix_arg_max (size + (length name + 1))
    then []
    else name ∷ fitting (size + (length name + 1)) left rest

-- The names with a space between them.
unfoldable pub join : List Bytes → Bytes
join [] = []
join (name ∷ []) = name
join (name ∷ next ∷ rest) = name ++ b' ' ∷ join (next ∷ rest)

unfoldable pub advertise_names : List Bytes → Option Bytes → Option Bytes
advertise_names [] before = before
advertise_names (name ∷ rest) before = some (join (name ∷ rest))

-- The value of the variable; without a name that fits it stays as it was.
unfoldable pub advertise : List Bytes → Option Bytes → Option Bytes
unfolding advertise_names fitting
advertise extensions before = advertise_names (fitting 0 uchar_max extensions) before

abbrev variable : Bytes
variable = codes "SCDM_SUPPORTED_PAM_EXTENSIONS"

-- The text in the block: the variable's name, and `=` and the value if a name fits.
block_text : List Bytes → Bytes
unfolding join
block_text [] = variable
block_text (name ∷ rest) = variable ++ b'=' ∷ join (name ∷ rest)

-- How many bytes of the block the text takes, with its null byte.
unfoldable pub block_size : List Bytes → ℕ
unfolding block_text fitting
block_size extensions = length (block_text (fitting 0 uchar_max extensions)) + 1

-- The loop of MESSAGE_INVALID_TYPE: the words of the variable, up to a number.
unfoldable pub words : (left : ℕ) (in_word : Bool) → Bytes → ℕ
words left in_word [] = 0
words left in_word (c ∷ cs) =
    let starts = not (c == b' ') && (not in_word && ltb 0 left) in
    (if starts then 1 else 0) + words (if starts then left - 1 else left) (not (c == b' ')) cs

unfoldable pub invalid_type : Option Bytes → (type : ℕ) → Bool
unfolding words
invalid_type none type = true
invalid_type (some value) type = not (ltb type (words (uchar_max + 1) false value))
