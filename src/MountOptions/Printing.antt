-- ===== src/MountOptions/Printing.antt =====
-- fuse/src/uring_fuse/mount/mount_options.rs: what becomes of an option that is printed and parsed.
use Prim.Native.String.{String, len, slice}
use Prim.Native.String
use Prim.Native.String.{compare}
use text.Mathlib.Text.{◌==◌ as str_eq, starts_with, is_eq}
use text.Mathlib.TextEquality.{eq_iff}
use text.Mathlib.TextPositions.{
  starts_with-append, len-append, slice-append_right, slice-append_left,
}
use text.Mathlib.TextLemmas.{append_assoc}
use fairy.Prelude.{
  Bool, true, false, not, ◌&&◌, ◌≡◌, refl, ap, ◌∙◌, List, [], ◌∷◌, inl, inr, Bool-cases, arith,
}
use fairy.MountOptions.{
  MountOption, fs_name, subtype, custom, allow_other, allow_root, auto_unmount, default_permissions,
  dev, no_dev, suid, no_suid, read_only, read_write, exec, no_exec, atime, no_atime, dir_sync, sync,
  async, from_word, words, with_value, rest_from, from_str, option_to_string,
}

-- A text that starts with what a word does not start with is not that word.
not_word : (p s word : String) → starts_with word p ≡ false → str_eq (String.◌++◌ p s) word ≡ false
not_word p s word h = elim (Bool-cases (str_eq (String.◌++◌ p s) word)) [
  | inr e ↦ e
  | inl e ↦ absurd (ground (arith, h, eq_iff (String.◌++◌ p s) word, starts_with-append p s))
]

avoids : String → List (String × MountOption) → Bool
avoids p [] = true
avoids p (w ∷ ws) = not (starts_with w.0 p) && avoids p ws

no_word :
    (p s : String) (ws : List (String × MountOption)) (other : MountOption)
    → avoids p ws ≡ true
    → from_word ws (String.◌++◌ p s) other ≡ other
unfolding avoids
no_word p s [] other h = refl
no_word p s (w ∷ ws) other h =
    rw (not_word p s w.0 (ground arith)) (no_word p s ws other (ground arith))

-- What a printed option is parsed as: the same, but for `AllowRoot`, and for a custom option that has
-- the form of another.
abbrev pub reparsed : MountOption → MountOption
reparsed (custom value) = from_str value
reparsed allow_root = allow_other
reparsed option = option

rest_from-append : (p s : String) → rest_from (String.◌++◌ p s) (len p) ≡ s
rest_from-append p s =
    ap (slice (String.◌++◌ p s) (len p)) (len-append p s) ∙ slice-append_right p s

name_lem : (name : String) → with_value (String.◌++◌ "fsname=" name) ≡ fs_name name
name_lem name =
    rw (starts_with-append "fsname=" name) (ap fs_name (rest_from-append "fsname=" name))

not_name : (kind : String) → starts_with (String.◌++◌ "subtype=" kind) "fsname=" ≡ false
not_name kind =
    ap (λ s. is_eq (compare s "fsname="))
      (ap (λ s. slice s 0 7) (append_assoc "subtype" "=" kind)
        ∙ slice-append_left "subtype" (String.◌++◌ "=" kind))

kind_lem : (kind : String) → with_value (String.◌++◌ "subtype=" kind) ≡ subtype kind
kind_lem kind =
    rw (not_name kind, starts_with-append "subtype=" kind)
      (ap subtype (rest_from-append "subtype=" kind))

-- An option that is printed and parsed again is the same, but for AllowRoot, which becomes AllowOther,
-- and for a custom option, which is parsed as its text.
pub from_str-option_to_string :
    (option : MountOption) → from_str (option_to_string option) ≡ reparsed option
unfolding from_str option_to_string avoids
from_str-option_to_string (fs_name name) = no_word "fsname=" name words _ refl ∙ name_lem name
from_str-option_to_string (subtype kind) = no_word "subtype=" kind words _ refl ∙ kind_lem kind
from_str-option_to_string (custom value) = refl
from_str-option_to_string allow_other = refl
from_str-option_to_string allow_root = refl
from_str-option_to_string auto_unmount = refl
from_str-option_to_string default_permissions = refl
from_str-option_to_string dev = refl
from_str-option_to_string no_dev = refl
from_str-option_to_string suid = refl
from_str-option_to_string no_suid = refl
from_str-option_to_string read_only = refl
from_str-option_to_string read_write = refl
from_str-option_to_string exec = refl
from_str-option_to_string no_exec = refl
from_str-option_to_string atime = refl
from_str-option_to_string no_atime = refl
from_str-option_to_string dir_sync = refl
from_str-option_to_string sync = refl
from_str-option_to_string async = refl
