-- ===== src/MountOptions/Tests.antt =====
-- fuse/src/uring_fuse/mount/mount_options.rs: the tests of the module, and instances of its laws.
use fairy.Prelude.{true, false, ◌≡◌, refl, none, some, [], ◌∷◌}
use fairy.MountOptions.{
  fs_name, allow_root, suid, no_suid, check_option_conflicts, same_option, no_dev, no_exec,
  read_only, sync, from_str, option_to_string, conflicts_with, split, parse_from,
  parse_options_from_args, ok, invalid_utf8, end_of_args, expected_option,
}
use fairy.MountOptions.Parsing.{
  arguments, reparsed_all, all_options, parse_options_from_args-arguments,
}

-- `test_parse_options`
parses :
    parse_options_from_args
      (some "-o" ∷ some "suid" ∷ some "-o" ∷ some "ro,nodev,noexec" ∷ some "-osync" ∷ [])
    ≡ ok (suid ∷ read_only ∷ no_dev ∷ no_exec ∷ sync ∷ [])
unfolding parse_options_from_args parse_from split from_str
parses = refl

refuses :
    (parse_options_from_args (some "-o" ∷ []) ≡ end_of_args)
    × (parse_options_from_args (some "not o" ∷ []) ≡ expected_option "not o")
    × (parse_options_from_args (none ∷ []) ≡ invalid_utf8)
unfolding parse_options_from_args parse_from
refuses = (refl, refl, refl)

parse_options_from_args-arguments_example :
    parse_options_from_args
      (arguments ((suid, []) ∷ (read_only, no_dev ∷ fs_name "fairy" ∷ allow_root ∷ []) ∷ []))
    ≡ ok (
        reparsed_all
          (all_options ((suid, []) ∷ (read_only, no_dev ∷ fs_name "fairy" ∷ allow_root ∷ []) ∷ [])))
unfolding option_to_string
parse_options_from_args-arguments_example =
    parse_options_from_args-arguments
      ((suid, []) ∷ (read_only, no_dev ∷ fs_name "fairy" ∷ allow_root ∷ []) ∷ []) refl

-- `option_checking`
checks :
    (check_option_conflicts (suid ∷ no_suid ∷ []) ≡ true)
    × (check_option_conflicts (suid ∷ no_exec ∷ []) ≡ false)
unfolding check_option_conflicts conflicts_with same_option
checks = (refl, refl)
