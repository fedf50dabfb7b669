-- ===== src/Wire/Front.antt =====
-- fuse/src/uring_fuse/low_level: whatever `parse` of op.rs finds is in front of the bytes that it is given.
use fairy.Prelude.{
  ℕ, ◌%◌, ◌≡◌, ◌≢◌, inl, inr, refl, ap, ◌∙◌, [], length, ◌==◌, ==_iff, arith, Bool-cases,
}
use fairy.Prelude.BTreeMap.{Bytes}
use fairy.Wire.{Crates, Fields, ArgumentIterator, fetch, fetch_slice, fetch_str}
use fairy.Wire.Layouts.{
  fuse_access_in, fuse_batch_forget_in, fuse_bmap_in, fuse_copy_file_range_in, fuse_create_in,
  fuse_fallocate_in, fuse_flush_in, fuse_forget_in, fuse_fsync_in, fuse_getxattr_in, fuse_init_in,
  fuse_interrupt_in, fuse_ioctl_in, fuse_link_in, fuse_lk_in, fuse_lseek_in, fuse_mkdir_in,
  fuse_mknod_in, fuse_open_in, fuse_poll_in, fuse_read_in, fuse_release_in, fuse_rename2_in,
  fuse_rename_in, fuse_setattr_in, fuse_setxattr_in, fuse_write_in, fuse_forget_one,
}
use fairy.Wire.Parsing.{
  FuseOpcode, fuse_lookup, fuse_forget, fuse_getattr, fuse_setattr, fuse_readlink, fuse_symlink,
  fuse_mknod, fuse_mkdir, fuse_unlink, fuse_rmdir, fuse_rename, fuse_link, fuse_open, fuse_read,
  fuse_write, fuse_statfs, fuse_release, fuse_fsync, fuse_setxattr, fuse_getxattr, fuse_listxattr,
  fuse_removexattr, fuse_flush, fuse_init, fuse_opendir, fuse_readdir, fuse_releasedir,
  fuse_fsyncdir, fuse_getlk, fuse_setlk, fuse_setlkw, fuse_access, fuse_create, fuse_interrupt,
  fuse_bmap, fuse_destroy, fuse_ioctl, fuse_poll, fuse_notify_reply, fuse_batch_forget,
  fuse_fallocate, fuse_readdirplus, fuse_rename2, fuse_lseek, fuse_copy_file_range, cuse_init,
  Parsed, parse, asserted,
}
use fairy.Wire.Encoding.{put_fields, put_str, encode, opcode, FitFields, IsName, Fits}
use fairy.Wire.Words.{AreBytes}
use fairy.Wire.Fetching.{Results, Results->>=, fetch_front, fetch_slice_front, fetch_str_front}

-- What is parsed, and what it leaves.
abbrev pub IsParsed : FuseOpcode → Bytes → Parsed → Type 0
IsParsed op bs p = (op ≡ opcode p) × (rest : Bytes) × (bs ≡ encode p rest) × Fits p rest

-- A write or a setting of an attribute whose length is not that of the bytes that come with it.
abbrev pub IsMismatch : FuseOpcode → Bytes → Type 0
IsMismatch fuse_write bs =
    (arg : Fields fuse_write_in) × (value : Bytes) × (bs ≡ put_fields fuse_write_in arg value)
    × FitFields fuse_write_in arg
    × (length value ≢ arg.1.1.0)
IsMismatch fuse_setxattr bs =
    (arg : Fields fuse_setxattr_in) × (name : Bytes) × (value : Bytes) × (bs
      ≡ put_fields fuse_setxattr_in arg (put_str name value))
    × FitFields fuse_setxattr_in arg
    × IsName name
    × (length value ≢ arg.0)
IsMismatch op bs = ⊥

Results-asserted :
    (P : Type 0) (len size : ℕ) (p : Parsed) (Q : Parsed → Type 0)
    → (len ≢ size → P)
    → (len ≡ size → Q p)
    → Results P (asserted len size p) Q
Results-asserted P len size p Q f g = elim (Bool-cases (len == size)) [
  | inl e ↦ rw e (g ((==_iff len size).0 e))
  | inr e ↦ rw e (f (λ s. ground arith))
]

pub parse_front :
    ⦃crates : Crates⦄ (op : FuseOpcode) (it : ArgumentIterator)
    → it.address % 8 ≡ 0
    → AreBytes it.left
    → Results (IsMismatch op it.left) (parse op it) (IsParsed op it.left)
unfolding parse encode
parse_front fuse_lookup it h b =
    Results->>= _ (fetch_str it) _ _ (fetch_str_front it b)
      λ name (e1, n1, left1). (refl, name.1.left, e1, n1)
parse_front fuse_forget it h b =
    Results->>= _ (fetch fuse_forget_in it) _ _ (fetch_front it b fuse_forget_in h)
      λ arg (e, fits, left, moved). (refl, arg.1.left, e, fits)
parse_front fuse_getattr it h b = (refl, it.left, refl, tt)
parse_front fuse_setattr it h b =
    Results->>= _ (fetch fuse_setattr_in it) _ _ (fetch_front it b fuse_setattr_in h)
      λ arg (e, fits, left, moved). (refl, arg.1.left, e, fits)
parse_front fuse_readlink it h b = (refl, it.left, refl, tt)
parse_front fuse_symlink it h b =
    Results->>= _ (fetch_str it) _ _ (fetch_str_front it b) λ name (e1, n1, left1).
      Results->>= _ (fetch_str name.1) _ _ (fetch_str_front name.1 left1)
        λ newname (e2, n2, left2). (refl, newname.1.left, e1 ∙ ap (put_str name.0) (e2), (n1, n2))
parse_front fuse_mknod it h b =
    Results->>= _ (fetch fuse_mknod_in it) _ _ (fetch_front it b fuse_mknod_in h)
      λ arg (e, fits, left, moved).
        Results->>= _ (fetch_str arg.1) _ _ (fetch_str_front arg.1 left) λ name (e1, n1, left1).
          (refl, name.1.left, e ∙ ap (put_fields fuse_mknod_in arg.0) (e1), (fits, n1))
parse_front fuse_mkdir it h b =
    Results->>= _ (fetch fuse_mkdir_in it) _ _ (fetch_front it b fuse_mkdir_in h)
      λ arg (e, fits, left, moved).
        Results->>= _ (fetch_str arg.1) _ _ (fetch_str_front arg.1 left) λ name (e1, n1, left1).
          (refl, name.1.left, e ∙ ap (put_fields fuse_mkdir_in arg.0) (e1), (fits, n1))
parse_front fuse_unlink it h b =
    Results->>= _ (fetch_str it) _ _ (fetch_str_front it b)
      λ name (e1, n1, left1). (refl, name.1.left, e1, n1)
parse_front fuse_rmdir it h b =
    Results->>= _ (fetch_str it) _ _ (fetch_str_front it b)
      λ name (e1, n1, left1). (refl, name.1.left, e1, n1)
parse_front fuse_rename it h b =
    Results->>= _ (fetch fuse_rename_in it) _ _ (fetch_front it b fuse_rename_in h)
      λ arg (e, fits, left, moved).
        Results->>= _ (fetch_str arg.1) _ _ (fetch_str_front arg.1 left) λ name (e1, n1, left1).
          Results->>= _ (fetch_str name.1) _ _ (fetch_str_front name.1 left1)
            λ newname (e2, n2, left2). (
              refl,
              newname.1.left,
              e ∙ ap (put_fields fuse_rename_in arg.0) (e1 ∙ ap (put_str name.0) (e2)),
              (fits, n1, n2),
            )
parse_front fuse_link it h b =
    Results->>= _ (fetch fuse_link_in it) _ _ (fetch_front it b fuse_link_in h)
      λ arg (e, fits, left, moved).
        Results->>= _ (fetch_str arg.1) _ _ (fetch_str_front arg.1 left) λ name (e1, n1, left1).
          (refl, name.1.left, e ∙ ap (put_fields fuse_link_in arg.0) (e1), (fits, n1))
parse_front fuse_open it h b =
    Results->>= _ (fetch fuse_open_in it) _ _ (fetch_front it b fuse_open_in h)
      λ arg (e, fits, left, moved). (refl, arg.1.left, e, fits)
parse_front fuse_read it h b =
    Results->>= _ (fetch fuse_read_in it) _ _ (fetch_front it b fuse_read_in h)
      λ arg (e, fits, left, moved). (refl, arg.1.left, e, fits)
parse_front fuse_write it h b =
    Results->>= _ (fetch fuse_write_in it) _ _ (fetch_front it b fuse_write_in h)
      λ arg (e, fits, left, moved).
        Results-asserted (IsMismatch fuse_write it.left) _ _ _ _
          (λ n. (arg.0, arg.1.left, e, fits, n)) (λ same. (refl, [], e, (fits, same, refl)))
parse_front fuse_statfs it h b = (refl, it.left, refl, tt)
parse_front fuse_release it h b =
    Results->>= _ (fetch fuse_release_in it) _ _ (fetch_front it b fuse_release_in h)
      λ arg (e, fits, left, moved). (refl, arg.1.left, e, fits)
parse_front fuse_fsync it h b =
    Results->>= _ (fetch fuse_fsync_in it) _ _ (fetch_front it b fuse_fsync_in h)
      λ arg (e, fits, left, moved). (refl, arg.1.left, e, fits)
parse_front fuse_setxattr it h b =
    Results->>= _ (fetch fuse_setxattr_in it) _ _ (fetch_front it b fuse_setxattr_in h)
      λ arg (e, fits, left, moved).
        Results->>= _ (fetch_str arg.1) _ _ (fetch_str_front arg.1 left) λ name (e1, n1, left1).
          Results-asserted (IsMismatch fuse_setxattr it.left) _ _ _ _
            (λ n. (
              arg.0,
              name.0,
              name.1.left,
              e ∙ ap (put_fields fuse_setxattr_in arg.0) (e1),
              fits,
              n1,
              n,
            ))
            (λ same.
              (refl, [], e ∙ ap (put_fields fuse_setxattr_in arg.0) (e1), (fits, n1, same, refl)))
parse_front fuse_getxattr it h b =
    Results->>= _ (fetch fuse_getxattr_in it) _ _ (fetch_front it b fuse_getxattr_in h)
      λ arg (e, fits, left, moved).
        Results->>= _ (fetch_str arg.1) _ _ (fetch_str_front arg.1 left) λ name (e1, n1, left1).
          (refl, name.1.left, e ∙ ap (put_fields fuse_getxattr_in arg.0) (e1), (fits, n1))
parse_front fuse_listxattr it h b =
    Results->>= _ (fetch fuse_getxattr_in it) _ _ (fetch_front it b fuse_getxattr_in h)
      λ arg (e, fits, left, moved). (refl, arg.1.left, e, fits)
parse_front fuse_removexattr it h b =
    Results->>= _ (fetch_str it) _ _ (fetch_str_front it b)
      λ name (e1, n1, left1). (refl, name.1.left, e1, n1)
parse_front fuse_flush it h b =
    Results->>= _ (fetch fuse_flush_in it) _ _ (fetch_front it b fuse_flush_in h)
      λ arg (e, fits, left, moved). (refl, arg.1.left, e, fits)
parse_front fuse_init it h b =
    Results->>= _ (fetch fuse_init_in it) _ _ (fetch_front it b fuse_init_in h)
      λ arg (e, fits, left, moved). (refl, arg.1.left, e, fits)
parse_front fuse_opendir it h b =
    Results->>= _ (fetch fuse_open_in it) _ _ (fetch_front it b fuse_open_in h)
      λ arg (e, fits, left, moved). (refl, arg.1.left, e, fits)
parse_front fuse_readdir it h b =
    Results->>= _ (fetch fuse_read_in it) _ _ (fetch_front it b fuse_read_in h)
      λ arg (e, fits, left, moved). (refl, arg.1.left, e, fits)
parse_front fuse_releasedir it h b =
    Results->>= _ (fetch fuse_release_in it) _ _ (fetch_front it b fuse_release_in h)
      λ arg (e, fits, left, moved). (refl, arg.1.left, e, fits)
parse_front fuse_fsyncdir it h b =
    Results->>= _ (fetch fuse_fsync_in it) _ _ (fetch_front it b fuse_fsync_in h)
      λ arg (e, fits, left, moved). (refl, arg.1.left, e, fits)
parse_front fuse_getlk it h b =
    Results->>= _ (fetch fuse_lk_in it) _ _ (fetch_front it b fuse_lk_in h)
      λ arg (e, fits, left, moved). (refl, arg.1.left, e, fits)
parse_front fuse_setlk it h b =
    Results->>= _ (fetch fuse_lk_in it) _ _ (fetch_front it b fuse_lk_in h)
      λ arg (e, fits, left, moved). (refl, arg.1.left, e, fits)
parse_front fuse_setlkw it h b =
    Results->>= _ (fetch fuse_lk_in it) _ _ (fetch_front it b fuse_lk_in h)
      λ arg (e, fits, left, moved). (refl, arg.1.left, e, fits)
parse_front fuse_access it h b =
    Results->>= _ (fetch fuse_access_in it) _ _ (fetch_front it b fuse_access_in h)
      λ arg (e, fits, left, moved). (refl, arg.1.left, e, fits)
parse_front fuse_create it h b =
    Results->>= _ (fetch fuse_create_in it) _ _ (fetch_front it b fuse_create_in h)
      λ arg (e, fits, left, moved).
        Results->>= _ (fetch_str arg.1) _ _ (fetch_str_front arg.1 left) λ name (e1, n1, left1).
          (refl, name.1.left, e ∙ ap (put_fields fuse_create_in arg.0) (e1), (fits, n1))
parse_front fuse_interrupt it h b =
    Results->>= _ (fetch fuse_interrupt_in it) _ _ (fetch_front it b fuse_interrupt_in h)
      λ arg (e, fits, left, moved). (refl, arg.1.left, e, fits)
parse_front fuse_bmap it h b =
    Results->>= _ (fetch fuse_bmap_in it) _ _ (fetch_front it b fuse_bmap_in h)
      λ arg (e, fits, left, moved). (refl, arg.1.left, e, fits)
parse_front fuse_destroy it h b = (refl, it.left, refl, tt)
parse_front fuse_ioctl it h b =
    Results->>= _ (fetch fuse_ioctl_in it) _ _ (fetch_front it b fuse_ioctl_in h)
      λ arg (e, fits, left, moved). (refl, [], e, (fits, refl))
parse_front fuse_poll it h b =
    Results->>= _ (fetch fuse_poll_in it) _ _ (fetch_front it b fuse_poll_in h)
      λ arg (e, fits, left, moved). (refl, arg.1.left, e, fits)
parse_front fuse_notify_reply it h b = (refl, [], refl, refl)
parse_front fuse_batch_forget it h b =
    Results->>= _ (fetch fuse_batch_forget_in it) _ _ (fetch_front it b fuse_batch_forget_in h)
      λ arg (e, fits, left, moved).
        Results->>= _ (fetch_slice fuse_forget_one arg.0.0 arg.1) _ _
          (fetch_slice_front arg.1 left fuse_forget_one arg.0.0 (omega (arith, h, moved)))
          λ nodes (es, ns, same). (
            refl,
            nodes.1.left,
            e ∙ ap (put_fields fuse_batch_forget_in arg.0) (es),
            (fits, ns, same),
          )
parse_front fuse_fallocate it h b =
    Results->>= _ (fetch fuse_fallocate_in it) _ _ (fetch_front it b fuse_fallocate_in h)
      λ arg (e, fits, left, moved). (refl, arg.1.left, e, fits)
parse_front fuse_readdirplus it h b =
    Results->>= _ (fetch fuse_read_in it) _ _ (fetch_front it b fuse_read_in h)
      λ arg (e, fits, left, moved). (refl, arg.1.left, e, fits)
parse_front fuse_rename2 it h b =
    Results->>= _ (fetch fuse_rename2_in it) _ _ (fetch_front it b fuse_rename2_in h)
      λ arg (e, fits, left, moved).
        Results->>= _ (fetch_str arg.1) _ _ (fetch_str_front arg.1 left) λ name (e1, n1, left1).
          Results->>= _ (fetch_str name.1) _ _ (fetch_str_front name.1 left1)
            λ newname (e2, n2, left2). (
              refl,
              newname.1.left,
              e ∙ ap (put_fields fuse_rename2_in arg.0) (e1 ∙ ap (put_str name.0) (e2)),
              (fits, n1, n2),
            )
parse_front fuse_lseek it h b =
    Results->>= _ (fetch fuse_lseek_in it) _ _ (fetch_front it b fuse_lseek_in h)
      λ arg (e, fits, left, moved). (refl, arg.1.left, e, fits)
parse_front fuse_copy_file_range it h b =
    Results->>= _ (fetch fuse_copy_file_range_in it) _ _
      (fetch_front it b fuse_copy_file_range_in h)
      λ arg (e, fits, left, moved). (refl, arg.1.left, e, fits)
parse_front cuse_init it h b =
    Results->>= _ (fetch fuse_init_in it) _ _ (fetch_front it b fuse_init_in h)
      λ arg (e, fits, left, moved). (refl, arg.1.left, e, fits)
