-- ===== src/MountOptions/Conflicts.antt =====
-- fuse/src/uring_fuse/mount/mount_options.rs: which options are refused together.
use Prim.Native.String.{String}
use text.Mathlib.TextEquality.{eq_iff}
use fairy.Prelude.{
  Occurs, ℕ, true, ◌||◌, ◌≡◌, ◌↔◌, ◌⊎◌, refl, sym, ap, ◌∙◌, List, [], ◌∷◌, ◌++◌, inl, inr,
  Bool-cases, arith, ◌==◌, ==_iff, if◌then◌else◌,
}
use mathlib.Core.Path.{subst}
use fairy.MountOptions.{
  MountOption, fs_name, subtype, custom, allow_other, allow_root, auto_unmount, default_permissions,
  dev, no_dev, suid, no_suid, read_only, read_write, exec, no_exec, atime, no_atime, dir_sync, sync,
  async, conflicts_with, variant, same_option, contains, contains_any, all_conflicts,
  check_option_conflicts,
}

option_of : ℕ → String → MountOption
option_of n s =
    if n == 0
    then fs_name s
    else if n == 1
    then subtype s
    else if n == 2
    then custom s
    else if n == 3
    then allow_other
    else if n == 4
    then allow_root
    else if n == 5
    then auto_unmount
    else if n == 6
    then default_permissions
    else if n == 7
    then dev
    else if n == 8
    then no_dev
    else if n == 9
    then suid
    else if n == 10
    then no_suid
    else if n == 11
    then read_only
    else if n == 12
    then read_write
    else if n == 13
    then exec
    else if n == 14
    then no_exec
    else if n == 15
    then atime
    else if n == 16
    then no_atime
    else if n == 17
    then dir_sync
    else if n == 18
    then sync
    else async

option_of-variant : (o : MountOption) → option_of (variant o).0 (variant o).1 ≡ o
unfolding option_of
option_of-variant (fs_name name) = refl
option_of-variant (subtype kind) = refl
option_of-variant (custom value) = refl
option_of-variant allow_other = refl
option_of-variant allow_root = refl
option_of-variant auto_unmount = refl
option_of-variant default_permissions = refl
option_of-variant dev = refl
option_of-variant no_dev = refl
option_of-variant suid = refl
option_of-variant no_suid = refl
option_of-variant read_only = refl
option_of-variant read_write = refl
option_of-variant exec = refl
option_of-variant no_exec = refl
option_of-variant atime = refl
option_of-variant no_atime = refl
option_of-variant dir_sync = refl
option_of-variant sync = refl
option_of-variant async = refl

same_option_iff : (o p : MountOption) → (same_option o p ≡ true) ↔ (o ≡ p)
unfolding same_option
same_option_iff o p = (sound, λ e. subst (λ q. same_option o q ≡ true) e same_self)
  where
    sound : same_option o p ≡ true → o ≡ p
    sound h =
        sym (option_of-variant o)
        ∙ ap (λ n. option_of n (variant o).1)
            ((==_iff (variant o).0 (variant p).0).0 (ground arith))
        ∙ ap (option_of (variant p).0) ((eq_iff (variant o).1 (variant p).1).0 (ground arith))
        ∙ option_of-variant p

    same_self : same_option o o ≡ true
    same_self = ground (arith, eq_iff (variant o).1 (variant o).1)

pub contains_iff : (os : List MountOption) (o : MountOption) → (contains os o ≡ true) ↔ Occurs o os
contains_iff [] o = (λ h. absurd (cc (h)), λ h. absurd h)
contains_iff (p ∷ ps) o = ground (arith, same_option_iff p o, contains_iff ps o)

contains_any_iff :
    (os cs : List MountOption)
    → (contains_any os cs ≡ true) ↔ ((c : MountOption) × Occurs c cs × Occurs c os)
contains_any_iff os [] = (λ h. absurd (cc (h)), λ (c, h, k). absurd h)
contains_any_iff os (c ∷ cs) = (there (contains_any_iff os cs).0, back (contains_any_iff os cs).1)
  where
    there :
        (contains_any os cs ≡ true → (d : MountOption) × Occurs d cs × Occurs d os)
        → (contains os c || contains_any os cs) ≡ true
        → (d : MountOption) × Occurs d (c ∷ cs) × Occurs d os
    there rec h = elim (Bool-cases (contains os c)) [
      | inl e ↦ (c, inl refl, (contains_iff os c).0 e)
      | inr e ↦ let (d, m, n) = rec (ground arith) in (d, inr m, n)
    ]

    back :
        ((d : MountOption) × Occurs d cs × Occurs d os → contains_any os cs ≡ true)
        → (d : MountOption) × Occurs d (c ∷ cs) × Occurs d os
        → (contains os c || contains_any os cs) ≡ true
    back rec (d, inl e, n) =
        ground (arith, (contains_iff os c).1 (subst (λ x. Occurs x os) (sym e) n))
    back rec (d, inr m, n) = ground (arith, rec (d, m, n))

pub append-Occurs :
    (xs ys : List MountOption) (c : MountOption) → Occurs c (xs ++ ys) ↔ (Occurs c xs ⊎ Occurs c ys)
append-Occurs [] ys c = (λ m. inr m, λ m. elim m [ inl e ↦ absurd e | inr n ↦ n ])
append-Occurs (x ∷ xs) ys c = ground (arith, append-Occurs xs ys c)

all_conflicts-Occurs :
    (os : List MountOption) (c : MountOption)
    → Occurs c (all_conflicts os) ↔ ((o : MountOption) × Occurs o os × Occurs c (conflicts_with o))
all_conflicts-Occurs [] c = (λ h. absurd h, λ (o, h, k). absurd h)
all_conflicts-Occurs (o ∷ os) c =
    (there (all_conflicts-Occurs os c).0, back (all_conflicts-Occurs os c).1)
  where
    there :
        (Occurs c (all_conflicts os)
          → (p : MountOption) × Occurs p os × Occurs c (conflicts_with p))
        → Occurs c (conflicts_with o ++ all_conflicts os)
        → (p : MountOption) × Occurs p (o ∷ os) × Occurs c (conflicts_with p)
    there rec h = elim ((append-Occurs (conflicts_with o) (all_conflicts os) c).0 h) [
      | inl m ↦ (o, inl refl, m)
      | inr m ↦ let (p, n, k) = rec m in (p, inr n, k)
    ]

    back :
        ((p : MountOption) × Occurs p os × Occurs c (conflicts_with p)
          → Occurs c (all_conflicts os))
        → (p : MountOption) × Occurs p (o ∷ os) × Occurs c (conflicts_with p)
        → Occurs c (conflicts_with o ++ all_conflicts os)
    back rec (p, inl e, k) =
        (append-Occurs (conflicts_with o) (all_conflicts os) c).1
          (inl (subst (λ x. Occurs c (conflicts_with x)) (sym e) k))
    back rec (p, inr n, k) =
        (append-Occurs (conflicts_with o) (all_conflicts os) c).1 (inr (rec (p, n, k)))

-- Options are refused exactly when one of them conflicts with one of them: whatever their order, and
-- however often each is given.
pub check_option_conflicts_iff :
    (os : List MountOption)
    → (check_option_conflicts os ≡ true) ↔ (
        (c : MountOption) × (o : MountOption) × Occurs c os
        × Occurs o os
        × Occurs c (conflicts_with o))
unfolding check_option_conflicts
check_option_conflicts_iff os = (
  λ h.
      let (c, m, n) = (contains_any_iff os (all_conflicts os)).0 h in
      let (o, k, l) = (all_conflicts-Occurs os c).0 m in (c, o, n, k, l),
  λ (c, o, n, k, l).
      (contains_any_iff os (all_conflicts os)).1 (c, (all_conflicts-Occurs os c).1 (o, k, l), n),
)
