-- ===== src/MountOptions/Parsing.antt =====
-- fuse/src/uring_fuse/mount/mount_options.rs: arguments that are made of printed options.
use Prim.Native.String.{String}
use Prim.Native.String
use Prim.Native.Char.{code}
use text.Mathlib.TextLemmas.{nil-append, cons-append}
use fairy.Prelude.{
  Bool, true, false, not, ◌&&◌, ◌≡◌, refl, ap, Option, some, List, [], ◌∷◌, ◌++◌, arith,
  if◌then◌else◌, ◌==◌,
}
use fairy.MountOptions.{
  MountOption, option_to_string, comma, split, parse_all, ok, parse_from, to_strs,
  parse_options_from_args,
}
use fairy.MountOptions.Printing.{reparsed, from_str-option_to_string}

abbrev pub has_comma : String → Bool
has_comma String.[] = false
has_comma (String.◌∷◌ c s) = let rest = has_comma s in if code c == comma then true else rest

split-whole : (s : String) → has_comma s ≡ false → split s ≡ s ∷ []
unfolding split
split-whole String.[] h = refl
split-whole (String.◌∷◌ c s) h = ground (arith, h, split-whole s)

split-comma :
    (s rest : String)
    → has_comma s ≡ false
    → split (String.◌++◌ s (String.◌∷◌ "," rest)) ≡ s ∷ split rest
unfolding split
split-comma String.[] rest h = rw (nil-append (String.◌∷◌ "," rest)) refl
split-comma (String.◌∷◌ c s) rest h =
    rw (cons-append c s (String.◌∷◌ "," rest)) (ground (arith, h, split-comma s rest))

-- The options of one argument, in print, separated by commas.
abbrev pub separated : MountOption → List MountOption → String
separated option [] = option_to_string option
separated option (next ∷ more) =
    String.◌++◌ (option_to_string option) (String.◌∷◌ "," (separated next more))

-- No option has a comma in print.
abbrev pub plain : MountOption → List MountOption → Bool
plain option [] = not (has_comma (option_to_string option))
plain option (next ∷ more) = not (has_comma (option_to_string option)) && plain next more

abbrev pub reparsed_all : List MountOption → List MountOption
reparsed_all [] = []
reparsed_all (option ∷ options) = reparsed option ∷ reparsed_all options

abbrev pub Group : Type 0
Group = MountOption × List MountOption

-- For each group `-o`, and the group.
abbrev pub arguments : List Group → List (Option String)
arguments [] = []
arguments ((option, more) ∷ groups) = some "-o" ∷ some (separated option more) ∷ arguments groups

abbrev pub all_plain : List Group → Bool
all_plain [] = true
all_plain ((option, more) ∷ groups) = plain option more && all_plain groups

abbrev pub all_options : List Group → List MountOption
all_options [] = []
all_options ((option, more) ∷ groups) = (option ∷ more) ++ all_options groups

parse_separated :
    (option : MountOption) (more : List MountOption)
    → plain option more ≡ true
    → parse_all (split (separated option more)) ≡ reparsed_all (option ∷ more)
parse_separated option [] h =
    rw (split-whole (option_to_string option) (ground (arith, h)), from_str-option_to_string option)
      refl
parse_separated option (next ∷ more) h =
    rw
      (
        split-comma (option_to_string option) (separated next more) (ground (arith, h)),
        from_str-option_to_string option,
        parse_separated next more (ground (arith, h)),
      )
      refl

texts : List Group → List String
texts [] = []
texts ((option, more) ∷ groups) = "-o" ∷ separated option more ∷ texts groups

to_strs-arguments : (groups : List Group) → to_strs (arguments groups) ≡ some (texts groups)
unfolding texts
to_strs-arguments [] = refl
to_strs-arguments ((option, more) ∷ groups) = rw (to_strs-arguments groups) refl

reparsed_all-append :
    (xs ys : List MountOption) → reparsed_all xs ++ reparsed_all ys ≡ reparsed_all (xs ++ ys)
reparsed_all-append [] ys = refl
reparsed_all-append (x ∷ xs) ys = ap (◌∷◌ (reparsed x)) (reparsed_all-append xs ys)

parse_from-texts :
    (groups : List Group)
    → all_plain groups ≡ true
    → parse_from false (texts groups) ≡ ok (reparsed_all (all_options groups))
unfolding parse_from texts
parse_from-texts [] h = refl
parse_from-texts ((option, more) ∷ groups) h =
    rw
      (parse_separated option more (ground (arith, h)), parse_from-texts groups (ground (arith, h)))
      (ap ok (reparsed_all-append (option ∷ more) (all_options groups)))

-- Groups of options without commas in print, each printed as one argument after -o, parse to the
-- options that they are, in order, but for AllowRoot and for custom options.
pub parse_options_from_args-arguments :
    (groups : List Group)
    → all_plain groups ≡ true
    → parse_options_from_args (arguments groups) ≡ ok (reparsed_all (all_options groups))
unfolding parse_options_from_args
parse_options_from_args-arguments groups h =
    rw (to_strs-arguments groups, parse_options_from_args) (parse_from-texts groups h)
