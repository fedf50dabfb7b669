-- ===== src/SimpleFs/Data.antt =====
-- fuse/src/filesystem.rs: the handlers that open, read and write files and directories.
use Prim.Native.Nat.{bit_and}
use fairy.Prelude.{
  ℕ, zero, suc, ◌+◌, ◌-◌, ◌%◌, ◌^◌, Bool, true, false, not, none, some, List, [], ◌∷◌, ◌++◌, ltb,
  ◌==◌, if◌then◌else◌, length, take, drop, min,
}
use fairy.Prelude.BTreeMap.{Bytes}
use fairy.Prelude.{ℤ, pos, negsuc}
use fairy.SimpleFs.{
  Time, FileKind, InodeAttributes, DirectoryDescriptor, Bincode, Request, Handler, ◌>>=◌, ◌>>◌,
  reply, fail, ensure, assert, unwrap, attempt, panic, when,
}
use fairy.SimpleFs.Libc.{
  eacces, ebadf, einval, enoent, x_ok, w_ok, r_ok, o_accmode, o_rdonly, o_wronly, o_rdwr, o_trunc,
  fopen_direct_io, falloc_fl_keep_size,
}
use fairy.SimpleFs.Access.{permitted, clear_suid_sgid, has}
use fairy.SimpleFs.Store.{
  get_inode, write_inode, open_content, write_content, touched, get_directory_content,
  check_file_handle_read, check_file_handle_write, allocate_next_file_handle,
}

abbrev pub fmode_exec : ℕ
fmode_exec = 0x20

-- `assert!(offset >= 0)`, and the offset as a `u64`.
abbrev pub non_negative : ℤ → Handler ℕ
non_negative (pos n) = reply n
non_negative (negsuc n) = λ s. panic

unfoldable pub readlink : ℕ → Handler Bytes
readlink inode = open_content enoent inode

-- What the flags of `open` ask for: the access mask, whether to read, and whether to write.
unfoldable pub open_mode : ℕ → Handler (ℕ × Bool × Bool)
open_mode flags =
    (let mode = bit_and flags o_accmode in
      if mode == o_rdonly
      then (do
        ensure (not (has flags o_trunc)) eacces
        reply (if has flags fmode_exec then (x_ok, true, false) else (r_ok, true, false)))
      else if mode == o_wronly
      then reply (w_ok, false, true)
      else if mode == o_rdwr
      then reply (r_ok + w_ok, true, true)
      else fail einval)

unfoldable pub opendir_mode : ℕ → Handler (ℕ × Bool × Bool)
opendir_mode flags =
    (let mode = bit_and flags o_accmode in
      if mode == o_rdonly
      then (do ensure (not (has flags o_trunc)) eacces; reply (r_ok, true, false))
      else if mode == o_wronly
      then reply (w_ok, false, true)
      else if mode == o_rdwr
      then reply (r_ok + w_ok, true, true)
      else fail einval)

abbrev pub open_flags : Handler ℕ
open_flags s = reply (if s.direct_io then fopen_direct_io else 0) s

-- The reply is the handle and the flags.
unfoldable pub open_inode : Request → ℕ → ℕ × Bool × Bool → Handler (ℕ × ℕ)
unfolding get_inode write_inode allocate_next_file_handle
open_inode req inode mode = do
  attr ← get_inode inode
  ensure (permitted attr req mode.0) eacces
  assert (ltb (attr.open_file_handles + 1) (2 ^ 64))
  write_inode (record attr { open_file_handles = attr.open_file_handles + 1 })
  flags ← open_flags
  fh ← allocate_next_file_handle mode.1 mode.2
  reply (fh, flags)

unfoldable pub open_file : Request → ℕ → ℕ → Handler (ℕ × ℕ)
unfolding open_mode open_inode
open_file req inode flags = do mode ← open_mode flags; open_inode req inode mode

unfoldable pub opendir : Request → ℕ → ℕ → Handler (ℕ × ℕ)
unfolding opendir_mode open_inode
opendir req inode flags = do mode ← opendir_mode flags; open_inode req inode mode

-- `release` and `releasedir`: the count falls in the attributes that were read, and they are dropped.
unfoldable pub release : ℕ → Handler (Unit {0})
unfolding get_inode
release inode = do
  found ← attempt (get_inode inode)
  elim found [ none ↦ reply tt | some attrs ↦ assert (ltb 0 attrs.open_file_handles) ]

-- `read_exact_at(..).unwrap()` of a buffer of `size` bytes.
unfoldable pub read_exact_at : ℕ → ℕ → Bytes → Handler Bytes
read_exact_at size offset bytes = do
  assert (not (ltb (length (drop offset bytes)) size))
  reply (take size (drop offset bytes))

unfoldable pub read : ℕ → ℕ → ℤ → ℕ → Handler Bytes
unfolding check_file_handle_read read_exact_at
read inode fh offset size = do
  offset ← non_negative offset
  ensure (check_file_handle_read fh) eacces
  bytes ← open_content enoent inode
  let read_size = min size ((length bytes - offset) % 2 ^ 32)
  read_exact_at read_size offset bytes

-- `write_all` over the bytes of a file, and after a seek; a gap is filled with zeros. Writing nothing
-- leaves a file as it is.
abbrev pub overwrite : Bytes → Bytes → Bytes
overwrite [] bytes = bytes
overwrite (d ∷ ds) [] = d ∷ overwrite ds []
overwrite (d ∷ ds) (b ∷ bytes) = d ∷ overwrite ds bytes

abbrev pub write_at : ℕ → Bytes → Bytes → Bytes
write_at zero ds bytes = overwrite ds bytes
write_at (suc n) [] bytes = bytes
write_at (suc n) (d ∷ ds) [] = 0 ∷ write_at n (d ∷ ds) []
write_at (suc n) (d ∷ ds) (b ∷ bytes) = b ∷ write_at n (d ∷ ds) bytes

-- The attributes after a write that ends at `end`.
abbrev pub written : (ℕ → Time) → InodeAttributes → ℕ → InodeAttributes
written now attrs end = record (touched attrs (now 0) (now 1)) {
  size = if ltb attrs.size end then end else attrs.size;
}

unfoldable pub write : (ℕ → Time) → ℕ → ℕ → ℤ → Bytes → Handler ℕ
unfolding check_file_handle_write get_inode write_inode clear_suid_sgid
write now inode fh offset bytes = do
  offset ← non_negative offset
  ensure (check_file_handle_write fh) eacces
  old ← open_content ebadf inode
  write_content inode (write_at offset bytes old)
  attrs ← unwrap (get_inode inode)
  write_inode (clear_suid_sgid (written now attrs (length bytes + offset)))
  reply (length bytes % 2 ^ 32)

-- One entry that `readdir` offers: the inode, the offset to go on from, the type and the name.
pub record DirectoryEntry : Type 0 where
  pub inode : ℕ
  pub offset : ℕ
  pub kind : FileKind
  pub name : Bytes

-- `reply.add` in a loop: it answers whether the buffer was too full for the entry.
unfoldable pub add_entries :
    (List DirectoryEntry → DirectoryEntry → Bool)
    → List DirectoryEntry
    → ℕ
    → DirectoryDescriptor
    → List DirectoryEntry
add_entries full added next [] = added
add_entries full added next (e ∷ entries) =
    (let entry : DirectoryEntry = record {
      inode = e.1.0;
      offset = next + 1;
      kind = e.1.1;
      name = e.0;
    } in
      let rest = add_entries full (added ++ (entry ∷ [])) (next + 1) entries in
      if full added entry then added else rest)

-- `entries.iter().skip(n)`
abbrev pub skip : ℕ → DirectoryDescriptor → DirectoryDescriptor
skip zero entries = entries
skip (suc n) [] = []
skip (suc n) (e ∷ entries) = skip n entries

unfoldable pub readdir :
    ⦃bin : Bincode⦄
    → (List DirectoryEntry → DirectoryEntry → Bool)
    → ℕ
    → ℤ
    → Handler (List DirectoryEntry)
unfolding get_directory_content add_entries
readdir full inode offset = do
  offset ← non_negative offset
  entries ← get_directory_content inode
  reply (add_entries full [] offset (skip offset entries))

-- `fallocate64` is the system call: what it makes of the bytes of a file, for a mode, an offset and a
-- length.
unfoldable pub fallocate :
    (ℕ → ℕ → ℕ → Bytes → Bytes) → (ℕ → Time) → ℕ → ℕ → ℕ → ℕ → Handler (Unit {0})
unfolding get_inode write_inode
fallocate fallocate64 now inode offset size mode = do
  bytes ← open_content enoent inode
  write_content inode (fallocate64 mode offset size bytes)
  when (not (has mode falloc_fl_keep_size))
      (do attrs ← unwrap (get_inode inode); write_inode (written now attrs (offset + size)))

-- The offsets are ones that fit in an `i64`.
unfoldable pub copy_file_range : (ℕ → Time) → ℕ → ℕ → ℕ → ℕ → ℕ → ℕ → ℕ → Handler ℕ
unfolding check_file_handle_read check_file_handle_write get_inode write_inode read_exact_at
copy_file_range now src_inode src_fh src_offset dest_inode dest_fh dest_offset size = do
  ensure (check_file_handle_read src_fh) eacces
  ensure (check_file_handle_write dest_fh) eacces
  bytes ← open_content enoent src_inode
  let read_size = min size (length bytes - src_offset)
  copied ← read_exact_at read_size src_offset bytes
  old ← open_content ebadf dest_inode
  write_content dest_inode (write_at dest_offset copied old)
  attrs ← unwrap (get_inode dest_inode)
  write_inode (written now attrs (length copied + dest_offset))
  reply (length copied % 2 ^ 32)
