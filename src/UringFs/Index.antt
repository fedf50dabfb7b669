-- ===== src/UringFs/Index.antt =====
-- fuse/src/uring_fuse/uring_fs/inode.rs: the index by path leads to inodes of that path.
use fairy.Prelude.{
  ℕ, ◌+◌, ◌<◌, ◌≤◌, ◌%◌, ◌^◌, ◌≡◌, ◌≢◌, Bool, true, false, some, List, [], ◌∷◌, length, inl, inr,
  ◌⊎◌, arith, Option-cases, Bool-cases, nat_eq,
}
use fairy.Prelude.{beq-ne, ap, sym, ◌∙◌}
use fairy.Prelude.BTreeMap.{Bytes, bytes_eq, bytes_beq_refl}
use fairy.UringFs.{
  FileType, directory, regular_file, Inode, InodeManager, UringFilesystem, replied, error, panic,
  Created, new_manager, get, lookup_inode, create_inode, join, init, lookup, create, created, run,
  attr_of, fuse_root_id, slash, enoent, ListStatusCache,
}

-- Every inode is stored under its number, which was given out, and every path of the index leads to an
-- inode with that path.
pub record IsIndexed (m : InodeManager) : Type 0 where
  pub keyed :
      (ino : ℕ) (inode : Inode) → m.inodes ino ≡ some inode → (inode.ino ≡ ino) × (ino < m.next_ino)
  pub leads :
      (path : Bytes) (ino : ℕ)
      → m.path_index path ≡ some ino
      → (inode : Inode) × (m.inodes ino ≡ some inode) × (inode.full_path ≡ path)

root_inode : Inode
root_inode = record {
  ino = fuse_root_id;
  parent = fuse_root_id;
  name = [];
  full_path = slash ∷ [];
  kind = directory;
}

new_manager-IsIndexed : (bucket : Bytes) → IsIndexed (new_manager bucket)
unfolding new_manager root_inode
new_manager-IsIndexed bucket = record { keyed = λ ino inode e. ground arith; leads = leads }
  where
    leads :
        (path : Bytes) (ino : ℕ)
        → (new_manager bucket).path_index path ≡ some ino
        → (inode : Inode) × ((new_manager bucket).inodes ino ≡ some inode)
          × (inode.full_path ≡ path)
    leads path ino e = elim (Bool-cases (bytes_eq.beq (slash ∷ []) path)) [
      | inl b ↦ (root_inode, ground arith, (bytes_eq.beq_iff (slash ∷ []) path).0 b)
      | inr b ↦ absurd (ground arith)
    ]

module _ (m : InodeManager) (v : IsIndexed m) (parent : ℕ) (name full_path : Bytes)
    (kind : FileType) (room : m.next_ino + 1 < 2 ^ 64) where
  create_inode-IsIndexed : IsIndexed (create_inode m parent name full_path kind).1
  unfolding create_inode
  create_inode-IsIndexed = record { keyed = keyed; leads = leads }
    where
      keyed :
          (ino : ℕ) (inode : Inode)
          → (create_inode m parent name full_path kind).1.inodes ino ≡ some inode
          → (inode.ino ≡ ino) × (ino < (m.next_ino + 1) % 2 ^ 64)
      keyed ino inode e = ground (arith, v.keyed ino inode)

      leads :
          (path : Bytes) (ino : ℕ)
          → (create_inode m parent name full_path kind).1.path_index path ≡ some ino
          → (inode : Inode) × ((create_inode m parent name full_path kind).1.inodes ino
              ≡ some inode)
            × (inode.full_path ≡ path)
      leads path ino e = elim (Bool-cases (bytes_eq.beq full_path path)) [
        | inl b ↦ (
          (create_inode m parent name full_path kind).0,
          ground arith,
          (bytes_eq.beq_iff full_path path).0 b,
        )
        | inr b ↦
            let (inode, i, p) = v.leads path ino (ground arith) in
            (inode, ground (arith, v.keyed ino inode i), p)
      ]

module _ (valid : Bytes → Bool) (fs : UringFilesystem) (parent : ℕ) (name : Bytes) where
  -- A call of `create` fails and changes nothing, or makes an inode under its parent's path.
  create_lem :
      (create valid fs parent name ≡ (error enoent, fs))
      ⊎ (create valid fs parent name ≡ (panic, fs))
      ⊎ ((node : Inode) × (fs.inode_manager.inodes parent ≡ some node)
          × (create valid fs parent name
              ≡ created valid fs node name (
                  create_inode fs.inode_manager parent name
                    (join node.full_path name)
                    regular_file))
          × (valid name ≡ true))
  unfolding create get
  create_lem = elim (Option-cases (fs.inode_manager.inodes parent)) [
    | inl e ↦ inl (ground arith)
    | inr (node, e) ↦ elim (Bool-cases (valid (join node.full_path name))) [
      | inr b ↦ inr (inl (ground arith))
      | inl b ↦ elim (Bool-cases (valid name)) [
        | inr c ↦ inr (inl (ground arith))
        | inl c ↦ inr (inr (node, e, ground arith, c))
      ]
    ]
  ]

  create-IsIndexed :
      IsIndexed fs.inode_manager
      → fs.inode_manager.next_ino + 1 < 2 ^ 64
      → IsIndexed (create valid fs parent name).1.inode_manager
        × ((create valid fs parent name).1.inode_manager.next_ino ≤ fs.inode_manager.next_ino + 1)
  unfolding create_inode
  create-IsIndexed v room = elim create_lem [
    | inl e ↦ rw e (v, omega arith)
    | inr (inl e) ↦ rw e (v, omega arith)
    | inr (inr (node, i, e, b)) ↦ rw e (
      create_inode-IsIndexed fs.inode_manager v parent name (join node.full_path name) regular_file
          room,
      omega arith,
    )
  ]

-- After any sequence of calls of create on a new file system, shorter than the numbers of inodes, every
-- inode is stored under its number, and every path of the index leads to an inode with that path.
pub run-IsIndexed :
    (valid : Bytes → Bool) (bucket : Bytes) (cache : ListStatusCache) (calls : List (ℕ × Bytes))
    → length calls + 2 < 2 ^ 64
    → IsIndexed (run valid (init (new_manager bucket) cache) calls).inode_manager
unfolding init run new_manager
run-IsIndexed valid bucket cache calls h =
    go calls (init (new_manager bucket) cache) (new_manager-IsIndexed bucket) (omega (arith, h))
  where
    go :
        (calls : List (ℕ × Bytes)) (fs : UringFilesystem)
        → IsIndexed fs.inode_manager
        → length calls + fs.inode_manager.next_ino < 2 ^ 64
        → IsIndexed (run valid fs calls).inode_manager
    go [] fs v r = v
    go ((parent, name) ∷ calls) fs v r =
        let (w, b) = create-IsIndexed valid fs parent name v (omega arith) in
        go calls (create valid fs parent name).1 w (omega (arith, b))

module _ (valid : Bytes → Bool) (fs : UringFilesystem) (parent : ℕ) (name : Bytes)
    (v : IsIndexed fs.inode_manager) {c : Created} {fs' : UringFilesystem}
    (e : create valid fs parent name ≡ (replied c, fs')) where
  created_lem :
      (node : Inode) × (fs.inode_manager.inodes parent ≡ some node)
      × (fs'.inode_manager
          ≡ (create_inode fs.inode_manager parent name (join node.full_path name) regular_file).1)
      × (c.entry.attr
          ≡ attr_of
              (create_inode fs.inode_manager parent name (join node.full_path name) regular_file).0)
      × (valid name ≡ true)
  created_lem = elim (create_lem valid fs parent name) [
    | inl x ↦ absurd (ground arith)
    | inr (inl x) ↦ absurd (ground arith)
    | inr (inr (node, i, x, b)) ↦ (node, i, ground arith, ground arith, b)
  ]

  pub lookup-created :
      (lookup valid fs' parent name
        ≡ replied (record { ttl = 100000; attr = c.entry.attr; generation = 0 }))
      × (c.entry.attr.ino ≡ fs.inode_manager.next_ino)
  unfolding lookup lookup_inode create_inode attr_of
  lookup-created =
      let (node, i, m, a, b) = created_lem in
      (
        ground
            (arith, m, a, b, i, v.keyed parent node i, bytes_beq_refl (join node.full_path name)),
        ground (arith, a),
      )

  lookup_other :
      (other : ℕ) (node inode : Inode) (n : Bytes)
      → fs.inode_manager.inodes other ≡ some node
      → fs.inode_manager.inodes parent ≡ some inode
      → join node.full_path n ≢ join inode.full_path name
      → lookup valid fs' other n ≡ lookup valid fs other n
  unfolding lookup lookup_inode create_inode
  lookup_other other node inode n k i d =
      let (parent_node, i', m, a, b) = created_lem in
      let path = join node.full_path n in
      let ne : bytes_eq.beq (join parent_node.full_path name) path ≡ false = beq-ne _ path (λ x. d (
        sym x
        ∙ ap (λ (o : Inode). join o.full_path name) {x = parent_node} {y = inode} (cc (i, i')))) in
      elim (Option-cases (fs.inode_manager.path_index path)) [
        | inl x ↦ ground (arith, m, k, v.keyed other node k, ne, x)
        | inr (ino, x) ↦
            let (found, y, z) = v.leads path ino x in
            ground (arith, m, k, v.keyed other node k, ne, x, y, v.keyed ino found y)
      ]

  -- What create made, lookup finds: under the new number, with the attributes that create replied. Every
  -- other path of an inode that was there leads where it led before.
  pub lookup-create :
      (other : ℕ) (node inode : Inode) (n : Bytes)
      → fs.inode_manager.inodes other ≡ some node
      → fs.inode_manager.inodes parent ≡ some inode
      → join node.full_path n ≢ join inode.full_path name
      → (lookup valid fs' parent name
          ≡ replied (record { ttl = 100000; attr = c.entry.attr; generation = 0 }))
        × (c.entry.attr.ino ≡ fs.inode_manager.next_ino)
        × (lookup valid fs' other n ≡ lookup valid fs other n)
  lookup-create other node inode n k i d =
      (lookup-created.0, lookup-created.1, lookup_other other node inode n k i d)
