-- ===== src/SimpleFs/Codec.antt =====
-- A codec for directories, which shows that what the file system asks of `bincode` can hold.
use fairy.Prelude.{ℕ, zero, suc, ◌≡◌, refl, ap, sym, ◌∙◌, Option, none, some, [], ◌∷◌, ◌++◌}
use fairy.Prelude.BTreeMap.{Bytes}
use fairy.SimpleFs.{FileKind, file, directory, symlink, DirectoryDescriptor, Bincode}

-- The bytes of a name are shifted by three, and the kind of the entry ends the name.
abbrev kind_code : FileKind → ℕ
kind_code file = 0
kind_code directory = 1
kind_code symlink = 2

abbrev shifted : Bytes → Bytes → Bytes
shifted [] tail = tail
shifted (b ∷ name) tail = suc (suc (suc b)) ∷ shifted name tail

abbrev encode : DirectoryDescriptor → Bytes
encode [] = []
encode (e ∷ m) = shifted e.0 (kind_code e.1.1 ∷ e.1.0 ∷ encode m)

abbrev prepend : Bytes → ℕ → FileKind → Option DirectoryDescriptor → Option DirectoryDescriptor
prepend name inode kind none = none
prepend name inode kind (some m) = some ((name, (inode, kind)) ∷ m)

abbrev decode : Bytes → Bytes → Option DirectoryDescriptor
decode [] [] = some []
decode (b ∷ name) [] = none
decode name (suc (suc (suc b)) ∷ rest) = decode (name ++ (b ∷ [])) rest
decode name (zero ∷ []) = none
decode name (suc zero ∷ []) = none
decode name (suc (suc zero) ∷ []) = none
decode name (zero ∷ inode ∷ rest) = prepend name inode file (decode [] rest)
decode name (suc zero ∷ inode ∷ rest) = prepend name inode directory (decode [] rest)
decode name (suc (suc zero) ∷ inode ∷ rest) = prepend name inode symlink (decode [] rest)

append_next :
    (name : Bytes) (b : ℕ) (rest : Bytes) → (name ++ (b ∷ [])) ++ rest ≡ name ++ (b ∷ rest)
append_next [] b rest = refl
append_next (a ∷ name) b rest = ap (◌∷◌ a) (append_next name b rest)

append_none : (name : Bytes) → name ++ [] ≡ name
append_none [] = refl
append_none (a ∷ name) = ap (◌∷◌ a) (append_none name)

decode-shifted :
    (acc name tail : Bytes) → decode acc (shifted name tail) ≡ decode (acc ++ name) tail
decode-shifted acc [] tail = ap (λ n. decode n tail) (sym (append_none acc))
decode-shifted acc (b ∷ name) tail =
    decode-shifted (acc ++ (b ∷ [])) name tail ∙ ap (λ n. decode n tail) (append_next acc b name)

decode-entry :
    (name : Bytes) (inode : ℕ) (kind : FileKind) (rest : Bytes)
    → decode name (kind_code kind ∷ inode ∷ rest) ≡ prepend name inode kind (decode [] rest)
decode-entry name inode file rest = refl
decode-entry name inode directory rest = refl
decode-entry name inode symlink rest = refl

pub decode-encode : (m : DirectoryDescriptor) → decode [] (encode m) ≡ some m
decode-encode [] = refl
decode-encode (e ∷ m) =
    decode-shifted [] e.0 (kind_code e.1.1 ∷ e.1.0 ∷ encode m)
    ∙ decode-entry e.0 e.1.0 e.1.1 (encode m)
    ∙ ap (prepend e.0 e.1.0 e.1.1) (decode-encode m)

instance abbrev pub codec : Bincode
codec = record {
  serialize = encode;
  deserialize = decode [];
  deserialize-serialize = decode-encode;
}
