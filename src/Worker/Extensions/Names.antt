-- ===== src/Worker/Extensions/Names.antt =====
-- The types of binary messages that the advertised names stand for: pam-extensions/scdm-pam-extensions.h
-- and filter_extensions of daemon/scdm-session-worker.c.
use scdm.Prelude.{
  ℕ, zero, suc, ◌+◌, ◌≤◌, ◌<◌, ◌≡◌, ◌∙◌, refl, ap, sym, Bool, true, false, not, Option, none, some,
  List, [], ◌∷◌, ◌++◌, arith, if◌then◌else◌, ltb, leb, Bytes, bytes_eq_sound, length, is_some,
  ◌>>=◌,
}
use scdm.Worker.Conversation.{name_at, names_of, by_name, process_extended_pam_message}
use scdm.Worker.Extensions.{
  posix_arg_max, uchar_max, choice_list, contains, filter_extensions, fitting, join,
  advertise_names, advertise, words, invalid_type,
}
use scdm.Worker.Types.{Extended, Worker, WorkerHost}

abbrev pub copies : ℕ → List Bytes
copies zero = []
copies (suc n) = choice_list ∷ copies n

pub copies-length : (n : ℕ) → length (copies n) ≡ n
copies-length zero = refl
copies-length (suc n) = ap suc (copies-length n)

contains-copy : (name : Bytes) → contains name (choice_list ∷ []) ≡ true → name ≡ choice_list
unfolding contains
contains-copy name e = bytes_eq_sound name choice_list (ground (arith, e))

-- Names that are supported are all the same.
pub filter_extensions-copies : (given : List Bytes) → (n : ℕ) × (filter_extensions given ≡ copies n)
unfolding filter_extensions
filter_extensions-copies [] = (0, refl)
filter_extensions-copies (name ∷ rest) =
    let (n, e) = filter_extensions-copies rest in go n e (contains name (choice_list ∷ [])) refl
  where
    go :
        (n : ℕ)
        → filter_extensions rest ≡ copies n
        → (b : Bool) → contains name (choice_list ∷ []) ≡ b
        → (k : ℕ) × ((if b then name ∷ filter_extensions rest else filter_extensions rest)
            ≡ copies k)
    go n e true q = (suc n, rw (contains-copy name q) (ap (λ l. choice_list ∷ l) e))
    go n e false q = (n, e)

-- Those that fit are the first ones.
pub fitting-copies :
    (size left n : ℕ) → (k : ℕ) × (fitting size left (copies n) ≡ copies k) × (k ≤ n) × (k ≤ left)
unfolding fitting
fitting-copies size zero n = (0, refl, omega arith, omega arith)
fitting-copies size (suc left) zero = (0, refl, omega arith, omega arith)
fitting-copies size (suc left) (suc n) =
    let (k, e, few, fits) = fitting-copies (size + (length choice_list + 1)) left n in
    go k e few fits (leb posix_arg_max (size + (length choice_list + 1)))
  where
    go :
        (k : ℕ)
        → fitting (size + (length choice_list + 1)) left (copies n) ≡ copies k
        → k ≤ n
        → k ≤ left
        → (b : Bool)
        → (j : ℕ) × ((if b
              then []
              else choice_list ∷ fitting (size + (length choice_list + 1)) left (copies n))
            ≡ copies j)
          × (j ≤ suc n)
          × (j ≤ suc left)
    go k e few fits true = (0, refl, omega arith, omega arith)
    go k e few fits false = (suc k, ap (λ l. choice_list ∷ l) e, omega arith, omega arith)

-- Each copy in the text is one word.
words-one : (left : ℕ) → words (suc left) false choice_list ≡ 1
unfolding words
words-one left = ground arith

words-more :
    (left : ℕ) (rest : Bytes)
    → words (suc left) false (choice_list ++ b' ' ∷ rest) ≡ suc (words left false rest)
unfolding words
words-more left rest = ground arith

words-join : (left n : ℕ) → n ≤ left → words left false (join (copies n)) ≡ n
unfolding join
words-join left zero h = unfold words in refl
words-join zero (suc n) h = absurd (omega (arith, h))
words-join (suc left) (suc zero) h = words-one left
words-join (suc left) (suc (suc n)) h =
    words-more left (join (copies (suc n))) ∙ ap suc (words-join left (suc n) (omega (arith, h)))

advertised :
    (n : ℕ)
    → n ≤ 255
    → (type : ℕ) → invalid_type (advertise_names (copies n) none) type ≡ not (ltb type n)
unfolding invalid_type advertise_names
advertised zero h type = ground arith
advertised (suc n) h type = ap (λ k. not (ltb type k)) (words-join 256 (suc n) (omega (arith, h)))

-- Where the environment had no such variable, a binary message has a valid type exactly if that is
-- below the number of supported names that fit.
pub invalid_type-advertise :
    (given : List Bytes) (type : ℕ)
    → invalid_type (advertise (filter_extensions given) none) type
      ≡ not (ltb type (length (fitting 0 uchar_max (filter_extensions given))))
unfolding advertise
invalid_type-advertise given type =
    let (n, e) = filter_extensions-copies given in
    let (k, fits, few, bounded) = fitting-copies 0 uchar_max n in
    rw (e, fits, copies-length k) (advertised k bounded type)

name_at-copies : (type n : ℕ) → type < n → name_at type (copies n) ≡ some choice_list
unfolding name_at
name_at-copies type zero h = absurd (omega (arith, h))
name_at-copies zero (suc n) h = refl
name_at-copies (suc type) (suc n) h = name_at-copies type n (omega (arith, h))

-- A worker that has advertised its own extensions, where the environment had no such variable before,
-- takes any binary message without comparing a null pointer, which would end the process.
pub extended_message_survives :
    (host : WorkerHost) (message : Extended) (given : List Bytes) (w : Worker)
    → w.extensions ≡ some (filter_extensions given)
    → w.advertised ≡ advertise (filter_extensions given) none
    → is_some (process_extended_pam_message host message w) ≡ true
unfolding process_extended_pam_message names_of advertise by_name
extended_message_survives host message given w ext adv =
    go (ltb message.length_declared 8) (invalid_type w.advertised message.type) refl
  where
    known :
        invalid_type w.advertised message.type ≡ false
        → name_at message.type (names_of w.extensions) ≡ some choice_list
    known e =
        let (n, copied) = filter_extensions-copies given in
        let (k, fits, few, bounded) = fitting-copies 0 uchar_max n in
        let valid : not (ltb message.type k) ≡ false =
          sym (advertised k bounded message.type)
          ∙ (ap (λ l. invalid_type (advertise_names l none) message.type)
                (sym (ap (fitting 0 uchar_max) copied ∙ fits))
              ∙ (ap (λ a. invalid_type a message.type) (sym adv) ∙ e)) in
        rw (ext, copied) (name_at-copies message.type n (ground (arith, valid, few)))

    found :
        (name : Option Bytes)
        → name ≡ some choice_list
        → is_some {A = Worker × Option (Option Bytes)}
            (by_name host message name >>= λ got. some (w, got))
          ≡ true
    found none e = cc
    found (some name) e = refl

    go :
        (short invalid : Bool)
        → invalid_type w.advertised message.type ≡ invalid
        → is_some {A = Worker × Option (Option Bytes)} (
            if short
            then some (w, none)
            else if invalid
            then some (w, none)
            else by_name host message (name_at message.type (names_of w.extensions)) >>= λ got.
                some (w, got))
          ≡ true
    go true invalid e = refl
    go false true e = refl
    go false false e = found _ (known e)
