-- ===== src/Wire/Matching.antt =====
-- fuse/src/uring_fuse/low_level: `parse` of op.rs finds an operation where the bytes are its layout, and
-- only there; and it panics where a length that is sent is not the length of what is sent.
use fairy.Prelude.{◌+◌, ◌%◌, ◌≡◌, ◌↔◌, ap, ◌∙◌, arith}
use mathlib.Core.Path.{subst}
use fairy.Wire.{Crates, size_of, panicked, fetched, ArgumentIterator}
use fairy.Wire.Layouts.{fuse_setxattr_in, fuse_write_in}
use fairy.Wire.Parsing.{FuseOpcode, fuse_write, fuse_setxattr, Parsed, parse}
use fairy.Wire.Encoding.{put_str, opcode}
use fairy.Wire.Words.{AreBytes}
use fairy.Wire.Encoded.{parse-encode, fetch-put_fields, fetch_str-put_str}
use fairy.Wire.Fetching.{Results}
use fairy.Wire.Front.{IsParsed, IsMismatch, parse_front}

-- Of an operation and the bytes of a request at an aligned address, `parse` returns the operation with
-- its arguments exactly where the bytes begin with the layout of these arguments, and the arguments are
-- such as the kernel may send.
pub parse_iff :
    ⦃crates : Crates⦄ (op : FuseOpcode) (it : ArgumentIterator) (p : Parsed)
    → it.address % 8 ≡ 0
    → AreBytes it.left
    → (parse op it ≡ fetched p) ↔ IsParsed op it.left p
parse_iff op it p h b = (
  λ e.
      subst (λ r. Results (IsMismatch op it.left) r (IsParsed op it.left)) e
        (parse_front op it h b),
  λ (o, rest, e, fits).
      ap (λ o. parse o it) o
      ∙ ap (λ bs. parse (opcode p) (record { address = it.address; left = bs })) e
      ∙ parse-encode it.address p rest h fits,
)

mismatched :
    ⦃crates : Crates⦄ (op : FuseOpcode) (it : ArgumentIterator)
    → it.address % 8 ≡ 0
    → IsMismatch op it.left
    → parse op it ≡ panicked
unfolding parse
mismatched fuse_write it h (arg, value, e, fits, n) =
    ap (λ bs. parse fuse_write (record { address = it.address; left = bs })) e
    ∙ rw (fetch-put_fields it.address fuse_write_in arg value h fits) (ground arith)
mismatched fuse_setxattr it h (arg, name, value, e, fits, is_name, n) =
    ap (λ bs. parse fuse_setxattr (record { address = it.address; left = bs })) e
    ∙ rw
        (
          fetch-put_fields it.address fuse_setxattr_in arg (put_str name value) h fits,
          fetch_str-put_str (it.address + size_of fuse_setxattr_in) name value is_name,
        )
        (ground arith)
mismatched op it h m = absurd m

-- Of the bytes of a request at an aligned address, `parse` panics exactly where a write or a setting of an
-- attribute comes with a length that is not that of the bytes behind it.
pub parse_panics_iff :
    ⦃crates : Crates⦄ (op : FuseOpcode) (it : ArgumentIterator)
    → it.address % 8 ≡ 0
    → AreBytes it.left
    → (parse op it ≡ panicked) ↔ IsMismatch op it.left
parse_panics_iff op it h b = (
  λ e.
      subst (λ r. Results (IsMismatch op it.left) r (IsParsed op it.left)) e
        (parse_front op it h b),
  mismatched op it h,
)
