-- ===== src/MountOptions.antt =====
-- fuse/src/uring_fuse/mount/mount_options.rs: mount options, their conflicts, printing and parsing. An
-- argument that is not UTF-8 is none.
pub mod Printing
pub mod Conflicts
pub mod Parsing
pub mod Tests
use Prim.Native.String.{String, len, slice}
use Prim.Native.String
use Prim.Native.Char.{Char, code}
use text.Mathlib.Text.{◌==◌ as str_eq, starts_with}
use fairy.Prelude.{
  ℕ, Bool, true, false, ◌&&◌, ◌||◌, Option, none, some, List, [], ◌∷◌, ◌++◌, ◌==◌, if◌then◌else◌,
}

pub data MountOption : Type 0 where
  fs_name subtype custom : String → MountOption
  allow_other allow_root auto_unmount default_permissions : MountOption
  dev no_dev suid no_suid read_only read_write exec no_exec : MountOption
  atime no_atime dir_sync sync async : MountOption

-- The arms of the words, in their order, and of the rest.
abbrev pub from_word : List (String × MountOption) → String → MountOption → MountOption
from_word [] s other = other
from_word (w ∷ words) s other = if str_eq s w.0 then w.1 else from_word words s other

abbrev pub words : List (String × MountOption)
words =
    ("auto_unmount", auto_unmount)
    ∷ ("allow_other", allow_other)
    ∷ ("allow_root", allow_root)
    ∷ ("default_permissions", default_permissions)
    ∷ ("dev", dev)
    ∷ ("nodev", no_dev)
    ∷ ("suid", suid)
    ∷ ("nosuid", no_suid)
    ∷ ("ro", read_only)
    ∷ ("rw", read_write)
    ∷ ("exec", exec)
    ∷ ("noexec", no_exec)
    ∷ ("atime", atime)
    ∷ ("noatime", no_atime)
    ∷ ("dirsync", dir_sync)
    ∷ ("sync", sync)
    ∷ ("async", async)
    ∷ []

-- `&s[n..]`
abbrev pub rest_from : String → ℕ → String
rest_from s n = slice s n (len s)

abbrev pub with_value : String → MountOption
with_value s =
    if starts_with s "fsname="
    then fs_name (rest_from s 7)
    else if starts_with s "subtype="
    then subtype (rest_from s 8)
    else custom s

unfoldable pub from_str : String → MountOption
from_str s = from_word words s (with_value s)

unfoldable pub option_to_string : MountOption → String
option_to_string (fs_name name) = String.◌++◌ "fsname=" name
option_to_string (subtype kind) = String.◌++◌ "subtype=" kind
option_to_string (custom value) = value
option_to_string auto_unmount = "auto_unmount"
option_to_string allow_other = "allow_other"
option_to_string allow_root = "allow_other"
option_to_string default_permissions = "default_permissions"
option_to_string dev = "dev"
option_to_string no_dev = "nodev"
option_to_string suid = "suid"
option_to_string no_suid = "nosuid"
option_to_string read_only = "ro"
option_to_string read_write = "rw"
option_to_string exec = "exec"
option_to_string no_exec = "noexec"
option_to_string atime = "atime"
option_to_string no_atime = "noatime"
option_to_string dir_sync = "dirsync"
option_to_string sync = "sync"
option_to_string async = "async"

unfoldable pub conflicts_with : MountOption → List MountOption
conflicts_with (fs_name name) = []
conflicts_with (subtype kind) = []
conflicts_with (custom value) = []
conflicts_with allow_other = allow_root ∷ []
conflicts_with allow_root = allow_other ∷ []
conflicts_with auto_unmount = []
conflicts_with default_permissions = []
conflicts_with dev = no_dev ∷ []
conflicts_with no_dev = dev ∷ []
conflicts_with suid = no_suid ∷ []
conflicts_with no_suid = suid ∷ []
conflicts_with read_only = read_write ∷ []
conflicts_with read_write = read_only ∷ []
conflicts_with exec = no_exec ∷ []
conflicts_with no_exec = exec ∷ []
conflicts_with atime = no_atime ∷ []
conflicts_with no_atime = atime ∷ []
conflicts_with dir_sync = []
conflicts_with sync = async ∷ []
conflicts_with async = sync ∷ []

-- The derived equality, by the variant and its value.
abbrev pub variant : MountOption → ℕ × String
variant (fs_name name) = (0, name)
variant (subtype kind) = (1, kind)
variant (custom value) = (2, value)
variant allow_other = (3, "")
variant allow_root = (4, "")
variant auto_unmount = (5, "")
variant default_permissions = (6, "")
variant dev = (7, "")
variant no_dev = (8, "")
variant suid = (9, "")
variant no_suid = (10, "")
variant read_only = (11, "")
variant read_write = (12, "")
variant exec = (13, "")
variant no_exec = (14, "")
variant atime = (15, "")
variant no_atime = (16, "")
variant dir_sync = (17, "")
variant sync = (18, "")
variant async = (19, "")

unfoldable pub same_option : MountOption → MountOption → Bool
same_option o p = ((variant o).0 == (variant p).0) && str_eq (variant o).1 (variant p).1

abbrev pub contains : List MountOption → MountOption → Bool
contains [] option = false
contains (o ∷ os) option = same_option o option || contains os option

abbrev pub contains_any : List MountOption → List MountOption → Bool
contains_any options [] = false
contains_any options (c ∷ cs) = contains options c || contains_any options cs

abbrev pub all_conflicts : List MountOption → List MountOption
all_conflicts [] = []
all_conflicts (o ∷ os) = conflicts_with o ++ all_conflicts os

-- Whether `Err` is returned: an option that conflicts with one of the options is one of them.
unfoldable pub check_option_conflicts : List MountOption → Bool
check_option_conflicts options = contains_any options (all_conflicts options)

-- `split(',')`: the part before the first comma, and the parts after it.
abbrev pub comma : ℕ
comma = 44

abbrev pub grow : Char → List String → List String
grow c [] = (String.◌∷◌ c "") ∷ []
grow c (part ∷ parts) = (String.◌∷◌ c part) ∷ parts

unfoldable pub split : String → List String
split String.[] = "" ∷ []
split (String.◌∷◌ c s) = let rest = split s in if code c == comma then "" ∷ rest else grow c rest

abbrev pub parse_all : List String → List MountOption
parse_all [] = []
parse_all (x ∷ xs) = from_str x ∷ parse_all xs

-- `io::Result<Vec<MountOption>>`
pub data Parsed : Type 0 where
  ok : List MountOption → Parsed
  invalid_utf8 end_of_args : Parsed
  expected_option : String → Parsed

abbrev pub push_all : List MountOption → Parsed → Parsed
push_all options (ok more) = ok (options ++ more)
push_all options invalid_utf8 = invalid_utf8
push_all options end_of_args = end_of_args
push_all options (expected_option x) = expected_option x

-- `pending` is whether the argument before was `-o` alone.
unfoldable pub parse_from : Bool → List String → Parsed
unfolding split
parse_from true [] = end_of_args
parse_from false [] = ok []
parse_from true (x ∷ args) = push_all (parse_all (split x)) (parse_from false args)
parse_from false (x ∷ args) =
    let separate = parse_from true args in
    let joined = parse_from false args in
    if str_eq x "-o"
    then separate
    else if starts_with x "-o"
    then push_all (parse_all (split (rest_from x 2))) joined
    else expected_option x

abbrev pub to_strs : List (Option String) → Option (List String)
to_strs [] = some []
to_strs (none ∷ args) = none
to_strs (some x ∷ args) = elim (to_strs args) [ none ↦ none | some xs ↦ some (x ∷ xs) ]

unfoldable pub parse_options_from_args : List (Option String) → Parsed
parse_options_from_args args = elim (to_strs args) [
  | none ↦ invalid_utf8
  | some xs ↦ parse_from false xs
]
