-- ===== src/SimpleFs/Removing.antt =====
-- fuse/src/filesystem.rs: the handlers that remove and rename entries.
use fairy.Prelude.{ℕ, ◌-◌, true, not, ◌&&◌, Option, none, some, ltb, ◌==◌, if◌then◌else◌, length}
use fairy.Prelude.BTreeMap.{Bytes}
use fairy.SimpleFs.{
  Time, directory, InodeAttributes, Bincode, Request, Handler, ◌>>=◌, ◌>>◌, reply, ensure, assert,
  when, unwrap, attempt,
}
use fairy.SimpleFs.Libc.{eacces, enotempty, w_ok, s_isvtx, rename_exchange}
use fairy.SimpleFs.Access.{permitted, sticky, has}
use fairy.SimpleFs.Store.{
  get_inode, write_inode, gc_inode, touched, write_directory_content, get_directory_content,
  add_entry, remove_entry, lookup_name,
}
use fairy.SimpleFs.Creating.{dot_dot, is_directory}

module _ ⦃bin : Bincode⦄ where
  -- The inode's new link count is stored, and the inode goes if nothing needs it.
  abbrev pub store_links : InodeAttributes → ℕ → Time → Handler (Unit {0})
  store_links attrs hardlinks time =
      (let new = record attrs { hardlinks = hardlinks; last_metadata_changed = time } in
        do write_inode new; removed ← gc_inode new; reply tt)

  -- Directories always have a self and parent link.
  abbrev pub ensure_empty : ℕ → Handler (Unit {0})
  ensure_empty inode = do
    entries ← unwrap (get_directory_content inode)
    ensure (not (ltb 2 (length entries))) enotempty

  -- What `unlink` does once the request may.
  unfoldable pub drop_link :
      (ℕ → Time) → InodeAttributes → InodeAttributes → ℕ → Bytes → Handler (Unit {0})
  unfolding write_inode gc_inode write_directory_content get_directory_content
  drop_link now attrs parent_attrs parent name = do
    write_inode (touched parent_attrs (now 0) (now 1))
    assert (ltb 0 attrs.hardlinks)
    store_links attrs (attrs.hardlinks - 1) (now 2)
    remove_entry parent name

  -- `unlink` from the inode on that it found.
  abbrev pub unlink_found : (ℕ → Time) → Request → ℕ → Bytes → InodeAttributes → Handler (Unit {0})
  unlink_found now req parent name attrs = do
    parent_attrs ← get_inode parent
    ensure (permitted parent_attrs req w_ok) eacces
    ensure (not (sticky parent_attrs attrs req)) eacces
    drop_link now attrs parent_attrs parent name

  unfoldable pub unlink : (ℕ → Time) → Request → ℕ → Bytes → Handler (Unit {0})
  unfolding get_inode lookup_name drop_link
  unlink now req parent name = do
    attrs ← lookup_name parent name
    unlink_found now req parent name attrs

  unfoldable pub rmdir : (ℕ → Time) → Request → ℕ → Bytes → Handler (Unit {0})
  unfolding get_inode write_inode gc_inode lookup_name write_directory_content get_directory_content
  rmdir now req parent name = do
    attrs ← lookup_name parent name
    parent_attrs ← get_inode parent
    ensure_empty attrs.inode
    ensure (permitted parent_attrs req w_ok) eacces
    ensure (not (sticky parent_attrs attrs req)) eacces
    write_inode (touched parent_attrs (now 0) (now 1))
    store_links attrs 0 (now 2)
    remove_entry parent name

  -- A directory that moves gets a new "..".
  abbrev pub set_parent : InodeAttributes → ℕ → Handler (Unit {0})
  set_parent attrs parent =
      when (is_directory attrs.kind) (add_entry attrs.inode dot_dot parent directory)

  -- "Sticky bit" handling in the new parent, which looks only at a name that is there.
  abbrev pub ensure_replaceable : Request → InodeAttributes → ℕ → Bytes → Handler (Unit {0})
  ensure_replaceable req new_parent_attrs new_parent new_name =
      when (has new_parent_attrs.mode s_isvtx) (do
        found ← attempt (lookup_name new_parent new_name)
        elim found [
          | none ↦ reply tt
          | some existing ↦ ensure (not (sticky new_parent_attrs existing req)) eacces
        ])

  -- `rename` with `RENAME_EXCHANGE`.
  unfoldable pub exchange :
      (ℕ → Time)
      → InodeAttributes
      → InodeAttributes
      → InodeAttributes
      → ℕ
      → Bytes
      → ℕ
      → Bytes
      → Handler (Unit {0})
  unfolding write_inode lookup_name write_directory_content get_directory_content
  exchange now inode_attrs parent_attrs new_parent_attrs parent name new_parent new_name = do
    new_inode_attrs ← lookup_name new_parent new_name
    add_entry new_parent new_name inode_attrs.inode inode_attrs.kind
    add_entry parent name new_inode_attrs.inode new_inode_attrs.kind
    write_inode (touched parent_attrs (now 0) (now 1))
    write_inode (touched new_parent_attrs (now 2) (now 3))
    write_inode (record inode_attrs { last_metadata_changed = now 4 })
    write_inode (record new_inode_attrs { last_metadata_changed = now 5 })
    set_parent inode_attrs new_parent
    set_parent new_inode_attrs parent

  -- Only overwrite an existing directory if it's empty.
  abbrev pub ensure_overwritable : ℕ → Bytes → Handler (Unit {0})
  ensure_overwritable new_parent new_name = do
    found ← attempt (lookup_name new_parent new_name)
    elim found [
      | none ↦ reply tt
      | some existing ↦ when (is_directory existing.kind) (ensure_empty existing.inode)
    ]

  -- If target already exists decrement its hardlink count.
  abbrev pub drop_found : Time → ℕ → Bytes → Option InodeAttributes → Handler (Unit {0})
  drop_found time new_parent new_name none = reply tt
  drop_found time new_parent new_name (some existing) = do
    remove_entry new_parent new_name
    assert (if is_directory existing.kind then true else ltb 0 existing.hardlinks)
    store_links existing (if is_directory existing.kind then 0 else existing.hardlinks - 1) time

  abbrev pub drop_target : Time → ℕ → Bytes → Handler (Unit {0})
  drop_target time new_parent new_name = do
    found ← attempt (lookup_name new_parent new_name)
    drop_found time new_parent new_name found

  -- `rename` without `RENAME_EXCHANGE`.
  unfoldable pub move :
      (ℕ → Time)
      → Request
      → InodeAttributes
      → InodeAttributes
      → InodeAttributes
      → ℕ
      → Bytes
      → ℕ
      → Bytes
      → Handler (Unit {0})
  unfolding gc_inode write_inode lookup_name write_directory_content get_directory_content
  move now req inode_attrs parent_attrs new_parent_attrs parent name new_parent new_name = do
    ensure_overwritable new_parent new_name
    ensure
        (not (
          is_directory inode_attrs.kind
          && not (parent == new_parent)
          && not (permitted inode_attrs req w_ok)))
        eacces
    drop_target (now 6) new_parent new_name
    remove_entry parent name
    add_entry new_parent new_name inode_attrs.inode inode_attrs.kind
    write_inode (touched parent_attrs (now 7) (now 8))
    write_inode (touched new_parent_attrs (now 9) (now 10))
    write_inode (record inode_attrs { last_metadata_changed = now 11 })
    set_parent inode_attrs new_parent

  unfoldable pub rename : (ℕ → Time) → Request → ℕ → Bytes → ℕ → Bytes → ℕ → Handler (Unit {0})
  unfolding get_inode lookup_name exchange move
  rename now req parent name new_parent new_name flags = do
    inode_attrs ← lookup_name parent name
    parent_attrs ← get_inode parent
    ensure (permitted parent_attrs req w_ok) eacces
    ensure (not (sticky parent_attrs inode_attrs req)) eacces
    new_parent_attrs ← get_inode new_parent
    ensure (permitted new_parent_attrs req w_ok) eacces
    ensure_replaceable req new_parent_attrs new_parent new_name
    if has flags rename_exchange
        then exchange now inode_attrs parent_attrs new_parent_attrs parent name new_parent new_name
        else move now req inode_attrs parent_attrs new_parent_attrs parent name new_parent new_name
