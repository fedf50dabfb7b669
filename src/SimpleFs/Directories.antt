-- ===== src/SimpleFs/Directories.antt =====
-- fuse/src/filesystem.rs: what `mkdir` does to the entries of its parent and of the new directory.
use fairy.Prelude.{
  ℕ, ◌+◌, ◌≤◌, ◌≡◌, ◌≢◌, refl, sym, ap, ◌∙◌, Bool, none, some, [], if◌then◌else◌, arith, nat_eq,
  insert,
}
use fairy.Prelude.BTreeMap
use mathlib.Core.Path.{subst}
use fairy.Prelude.BTreeMap.{Bytes, bytes_eq, bytes_beq_refl, get-insert, get-remove}
use fairy.SimpleFs.{
  Time, directory, InodeAttributes, DirectoryDescriptor, Bincode, SimpleFs, Request, done, ◌>>=◌,
}
use fairy.SimpleFs.Libc.{fuse_root_id, s_isgid}
use fairy.SimpleFs.Store.{
  write_directory_content, add_entry, lookup_name, write_inode, allocate_next_inode, ensure_missing,
}
use fairy.SimpleFs.Creating.{
  touch_parent, link_directory, mkdir, dot, dot_dot, new_inode, strip_set_ids, suid_supported,
  block_size,
}
use Prim.Native.Nat.{bit_or}
use fairy.SimpleFs.Steps.{Quiet-ensure_missing}
use fairy.SimpleFs.Access.{has, creation_mode}
use fairy.SimpleFs.Atomic.{run_inversion, Kept-inversion}
use fairy.SimpleFs.Entries.{
  last_inode, IsBounded, found_entry, parsed, entry, add_entry_lem, touch_parent_inversion,
  allocate_next_inode_inversion, lookup_name_lem,
}

module _ ⦃bin : Bincode⦄ where
  -- What `link_directory` has done; `number` is the one of the new directory.
  pub record IsNewDirectory (parent : ℕ) (name : Bytes) (s s' : SimpleFs) (attrs : InodeAttributes)
      : Type 0 where
    pub found : lookup_name parent name s' ≡ done s' attrs
    pub entries :
        (k : Bytes)
        → entry s' parent k
          ≡ (if bytes_eq.beq name k then some (attrs.inode, directory) else entry s parent k)
    pub own : entry s' attrs.inode dot ≡ some (attrs.inode, directory)
    pub up : entry s' attrs.inode dot_dot ≡ some (parent, directory)

  own_entries :
      (inode parent : ℕ) (s : SimpleFs)
      → s.contents inode
        ≡ some (
            bin.serialize (
              BTreeMap.insert
                (BTreeMap.insert [] dot (inode, directory))
                dot_dot
                (parent, directory)))
      → (entry s inode dot ≡ some (inode, directory))
        × (entry s inode dot_dot ≡ some (parent, directory))
  unfolding entry
  own_entries inode parent s e =
      (ap (λ d. found_entry d dot) read_back, ap (λ d. found_entry d dot_dot) read_back)
    where
      two : DirectoryDescriptor
      two = BTreeMap.insert (BTreeMap.insert [] dot (inode, directory)) dot_dot (parent, directory)

      read_back : parsed (s.contents inode) ≡ some two
      read_back = ap parsed e ∙ bin.deserialize-serialize two

  link_directory-IsNewDirectory :
      (parent : ℕ) (name : Bytes) (new : InodeAttributes) (s : SimpleFs) {s' : SimpleFs}
      {attrs : InodeAttributes}
      → parent ≢ new.inode
      → link_directory parent name new s ≡ done s' attrs
      → (attrs ≡ new) × IsNewDirectory parent name s s' new
  unfolding link_directory write_directory_content write_inode entry
  link_directory-IsNewDirectory parent name new s {s'} ne h =
      let (t, u, o, e) = run_inversion (add_entry parent name new.inode directory before) _ h in
      let same : t ≡ s' = ground (arith, e) in
      let new_directory : IsNewDirectory parent name s t new = after t u o in
      (ground (arith, e), subst (λ x. IsNewDirectory parent name s x new) same new_directory)
    where
      before : SimpleFs
      before = record s {
        inodes = insert s.inodes new.inode new;
        contents = insert s.contents new.inode (
            bin.serialize (
              BTreeMap.insert (BTreeMap.insert [] dot (new.inode, directory)) dot_dot
                (parent, directory)));
      }

      parent_kept : before.contents parent ≡ s.contents parent
      parent_kept = ground arith

      kept_entry : (n : Bytes) → entry before parent n ≡ entry s parent n
      kept_entry n = ap (λ c. found_entry (parsed c) n) parent_kept

      after :
          (t : SimpleFs) (u : Unit {0})
          → add_entry parent name new.inode directory before ≡ done t u
          → IsNewDirectory parent name s t new
      after t u o =
          let (i, k, c) = add_entry_lem parent name new.inode directory before o in
          let own_two =
            own_entries new.inode parent t (c new.inode (λ q. ne (sym q)) ∙ ground arith) in
          record {
            found =
                lookup_name_lem parent name new.inode directory t
                  (k name ∙ ground (arith, bytes_beq_refl name))
                  (ap (λ f. f new.inode) i ∙ ground arith);
            entries = λ n.
                k n
                ∙ ap (λ x. if bytes_eq.beq name n then some (new.inode, directory) else x)
                    (kept_entry n);
            own = own_two.0;
            up = own_two.1;
          }

  -- Only the contents count for what was there before.
  IsNewDirectory-before :
      (parent : ℕ) (name : Bytes) (s t s' : SimpleFs) (new : InodeAttributes)
      → t.contents ≡ s.contents
      → IsNewDirectory parent name t s' new
      → IsNewDirectory parent name s s' new
  unfolding entry
  IsNewDirectory-before parent name s t s' new c d = record {
    found = d.found;
    entries = λ k.
        d.entries k
        ∙ ap
            (λ x.
              if bytes_eq.beq name k
              then some (new.inode, directory)
              else found_entry (parsed (x parent)) k)
            c;
    own = d.own;
    up = d.up;
  }

  allocate_and_link :
      (parent : ℕ) (name : Bytes) (build : ℕ → Bool → InodeAttributes) (s t : SimpleFs)
      {s' : SimpleFs} {attrs : InodeAttributes}
      → ((i : ℕ) (b : Bool) → (build i b).inode ≡ i)
      → t.contents ≡ s.contents
      → t.superblock ≡ s.superblock
      → parent ≤ last_inode s
      → (allocate_next_inode >>= λ inode.
            suid_supported >>= λ b. link_directory parent name (build inode b))
          t
        ≡ done s' attrs
      → (attrs.inode ≡ last_inode s + 1) × IsNewDirectory parent name s s' attrs
  allocate_and_link parent name build s t {s'} {attrs} numbered c b low h =
      let (u, inode, o, h') = run_inversion (allocate_next_inode t) _ h in
      let (n, k) = allocate_next_inode_inversion t o in
      let last : last_inode t ≡ last_inode s =
        ap (λ x. elim x as (λ y. ℕ) [ none ↦ fuse_root_id | some n ↦ n ]) b in
      let number : (build inode u.suid_support).inode ≡ last_inode s + 1 =
        numbered inode u.suid_support ∙ n ∙ ap (λ x. x + 1) last in
      let (e, d) =
        link_directory-IsNewDirectory parent name (build inode u.suid_support) u
          (λ q. absurd (omega (arith, q, number, low))) h' in
      (
        ap (λ x. x.inode) e ∙ number,
        subst (IsNewDirectory parent name s s') (sym e)
            (IsNewDirectory-before parent name s u s' (build inode u.suid_support) (k ∙ c) d),
      )

  -- If `mkdir` replies attributes, then they are of an inode with the next number, to which the name
  -- now leads in the parent, while every other name there leads where it led before; and "." and ".."
  -- lead from the new directory to itself and to its parent. No inode may have had a higher number than
  -- the last one that was given out.
  pub mkdir-IsNewDirectory :
      (now : ℕ → Time) (req : Request) (parent : ℕ) (name : Bytes) (mode : ℕ) (s : SimpleFs)
      {s' : SimpleFs} {attrs : InodeAttributes}
      → IsBounded s
      → mkdir now req parent name mode s ≡ done s' attrs
      → (attrs.inode ≡ last_inode s + 1) × IsNewDirectory parent name s s' attrs
  unfolding mkdir IsBounded
  mkdir-IsNewDirectory now req parent name mode s {s'} {attrs} bounded h =
      let (t, h1, o1) =
        Kept-inversion s (ensure_missing parent name s) _
          ((Quiet-ensure_missing parent name).keep s) h in
      let (s2, p, o2, h2) = run_inversion (touch_parent now req parent s) _ h1 in
      let (old, i, c, b) = touch_parent_inversion now req parent s o2 in
      allocate_and_link parent name
        (λ inode suid_support.
          new_inode now req p inode directory
            (creation_mode suid_support (
              if has p.mode s_isgid
              then bit_or (strip_set_ids req mode) s_isgid
              else strip_set_ids req mode))
            block_size 2 0)
        s s2 (λ n x. refl) c b (bounded parent old i) h2
