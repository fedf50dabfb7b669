-- ===== src/SimpleFs/Entries.antt =====
-- fuse/src/filesystem.rs: what the handlers do to the entries of a directory.
use fairy.Prelude.{
  ℕ, ◌+◌, ◌≤◌, ◌≡◌, ◌≢◌, Option, none, some, if◌then◌else◌, arith, inl, inr, Option-cases, nat_eq,
}
use fairy.Prelude.BTreeMap
use fairy.Prelude.BTreeMap.{Bytes, bytes_eq, bytes_beq_refl, get-insert, get-remove}
use fairy.SimpleFs.{
  Time, FileKind, InodeAttributes, DirectoryDescriptor, Bincode, SimpleFs, Request, done,
}
use fairy.SimpleFs.Libc.{fuse_root_id}
use fairy.SimpleFs.Store.{
  get_directory_content, write_directory_content, add_entry, lookup_name, get_inode, write_inode,
  allocate_next_inode,
}
use fairy.SimpleFs.Creating.{touch_parent}

-- The number of the last inode that was made.
abbrev pub last_inode : SimpleFs → ℕ
last_inode s = elim s.superblock [ none ↦ fuse_root_id | some n ↦ n ]

-- Every inode has a number up to the last one.
unfoldable pub IsBounded : SimpleFs → Type 0
IsBounded s =
    (inode : ℕ) (attrs : InodeAttributes) → s.inodes inode ≡ some attrs → inode ≤ last_inode s

module _ ⦃bin : Bincode⦄ where
  -- The entry that a name has in a directory.
  abbrev pub found_entry : Option DirectoryDescriptor → Bytes → Option (ℕ × FileKind)
  found_entry none name = none
  found_entry (some entries) name = BTreeMap.get entries name

  abbrev pub parsed : Option Bytes → Option DirectoryDescriptor
  parsed none = none
  parsed (some bytes) = bin.deserialize bytes

  unfoldable pub entry : SimpleFs → ℕ → Bytes → Option (ℕ × FileKind)
  entry s parent name = found_entry (parsed (s.contents parent)) name

  pub add_entry_lem :
      (parent : ℕ) (name : Bytes) (inode : ℕ) (kind : FileKind) (s : SimpleFs) {s' : SimpleFs}
      {t : Unit {0}}
      → add_entry parent name inode kind s ≡ done s' t
      → (s'.inodes ≡ s.inodes)
        × ((k : Bytes)
            → entry s' parent k
              ≡ (if bytes_eq.beq name k then some (inode, kind) else entry s parent k))
        × ((j : ℕ) → j ≢ parent → s'.contents j ≡ s.contents j)
  unfolding entry get_directory_content write_directory_content
  add_entry_lem parent name inode kind s h = elim (Option-cases (s.contents parent)) [
    | inl m ↦ absurd (ground arith)
    | inr (bytes, m) ↦ elim (Option-cases (bin.deserialize bytes)) [
      | inl n ↦ absurd (ground arith)
      | inr (entries, n) ↦ (
        ground arith,
        λ k. ground (
          arith,
          get-insert entries name (inode, kind) k,
          bin.deserialize-serialize (BTreeMap.insert entries name (inode, kind)),
        ),
        λ j ne. ground arith,
      )
    ]
  ]

  pub touch_parent_inversion :
      (now : ℕ → Time) (req : Request) (parent : ℕ) (s : SimpleFs) {s' : SimpleFs}
      {new : InodeAttributes}
      → touch_parent now req parent s ≡ done s' new
      → (attrs : InodeAttributes) × (s.inodes parent ≡ some attrs)
        × (s'.contents ≡ s.contents)
        × (s'.superblock ≡ s.superblock)
  unfolding touch_parent get_inode write_inode
  touch_parent_inversion now req parent s h = elim (Option-cases (s.inodes parent)) [
    | inl m ↦ absurd (ground arith)
    | inr (attrs, m) ↦ (attrs, m, ground arith, ground arith)
  ]

  pub allocate_next_inode_inversion :
      (s : SimpleFs) {s' : SimpleFs} {inode : ℕ}
      → allocate_next_inode s ≡ done s' inode
      → (inode ≡ last_inode s + 1) × (s'.contents ≡ s.contents)
  unfolding allocate_next_inode
  allocate_next_inode_inversion s h = (ground arith, ground arith)

  -- An entry of a directory and the inode that it names are what `lookup_name` finds.
  pub lookup_name_lem :
      (parent : ℕ) (name : Bytes) (inode : ℕ) (kind : FileKind) (s : SimpleFs)
      {attrs : InodeAttributes}
      → entry s parent name ≡ some (inode, kind)
      → s.inodes inode ≡ some attrs
      → lookup_name parent name s ≡ done s attrs
  unfolding entry lookup_name get_inode get_directory_content
  lookup_name_lem parent name inode kind s e i = elim (Option-cases (s.contents parent)) [
    | inl m ↦ absurd (ground arith)
    | inr (bytes, m) ↦ elim (Option-cases (bin.deserialize bytes)) [
      | inl n ↦ absurd (ground arith)
      | inr (entries, n) ↦ ground arith
    ]
  ]
