-- ===== src/SimpleFs/Listing.antt =====
-- fuse/src/filesystem.rs: the entries that `readdir` offers.
use fairy.Prelude.{
  ℕ, zero, suc, ◌+◌, ◌≡◌, refl, sym, ap, ◌∙◌, Bool, some, List, [], ◌∷◌, ◌++◌, ◌==◌, length,
  get_elem?, arith, inl, inr, Bool-cases, get_elem?-snoc, length-snoc,
}
use fairy.Prelude.BTreeMap.{Bytes}
use fairy.Prelude.{pos}
use fairy.SimpleFs.{FileKind, DirectoryDescriptor, Bincode, SimpleFs, done, Handler}
use fairy.SimpleFs.Store.{get_directory_content}
use fairy.SimpleFs.Data.{DirectoryEntry, add_entries, skip, readdir}
use mathlib.Core.Path.{subst}
use fairy.Prelude.{==_iff}
use fairy.SimpleFs.{reply}
use fairy.SimpleFs.Atomic.{Kept, Kept-inversion}
use fairy.SimpleFs.Steps.{Quiet-get_directory_content}

skip_next :
    (n : ℕ) (all rest : DirectoryDescriptor) {e : Bytes × (ℕ × FileKind)}
    → skip n all ≡ e ∷ rest
    → (get_elem? all n ≡ some e) × (skip (suc n) all ≡ rest)
skip_next zero [] rest h = absurd cc
skip_next zero (e ∷ all) rest h = (cc, cc)
skip_next (suc n) [] rest h = absurd cc
skip_next (suc n) (e ∷ all) rest h = skip_next n all rest h

-- The listing holds the entries of a directory from an index on, each with the offset of the next.
unfoldable pub IsListing : DirectoryDescriptor → ℕ → List DirectoryEntry → Type 0
IsListing all start listing =
    (i : ℕ) (e : DirectoryEntry)
    → get_elem? listing i ≡ some e
    → (get_elem? all (start + i) ≡ some (e.name, (e.inode, e.kind))) × (e.offset ≡ start + i + 1)

snoc-IsListing :
    (all : DirectoryDescriptor) (start : ℕ) (added : List DirectoryEntry) (d : DirectoryEntry)
    → get_elem? all (start + length added) ≡ some (d.name, (d.inode, d.kind))
    → d.offset ≡ start + length added + 1
    → IsListing all start added
    → IsListing all start (added ++ (d ∷ []))
unfolding IsListing
snoc-IsListing all start added d h k v i e g = elim (Bool-cases (length added == i)) [
  | inl q ↦ ground (
    arith,
    get_elem?-snoc added i d,
    ap (λ n. get_elem? all (start + n)) ((==_iff (length added) i).0 q),
  )
  | inr q ↦ ground (arith, get_elem?-snoc added i d, v i e)
]

add_entries-IsListing :
    (full : List DirectoryEntry → DirectoryEntry → Bool) (all entries : DirectoryDescriptor)
    (start : ℕ) (added : List DirectoryEntry) (next : ℕ)
    → next ≡ start + length added
    → skip next all ≡ entries
    → IsListing all start added
    → IsListing all start (add_entries full added next entries)
unfolding add_entries
add_entries-IsListing full all [] start added next e h v = v
add_entries-IsListing full all (d ∷ entries) start added next e h v =
    elim (Bool-cases (full added entry)) [
      | inl f ↦ rw f v
      | inr f ↦ rw f (
          add_entries-IsListing full all entries start (added ++ (entry ∷ [])) (next + 1)
            (omega (arith, length-snoc added entry))
            (ap (λ k. skip k all) one_more ∙ (skip_next next all entries h).1)
            (snoc-IsListing all start added entry
              (ap (get_elem? all) (sym e) ∙ (skip_next next all entries h).0) (omega arith) v))
    ]
  where
    entry : DirectoryEntry
    entry = record { inode = d.1.0; offset = next + 1; kind = d.1.1; name = d.0 }

    one_more : next + 1 ≡ suc next
    one_more = omega arith

-- Whatever the buffer takes, `readdir` lists entries of the directory from its offset on, in order,
-- and gives each the offset at which a later call goes on with the next entry.
pub readdir-IsListing :
    ⦃bin : Bincode⦄
    → (full : List DirectoryEntry → DirectoryEntry → Bool) (inode start : ℕ) (s : SimpleFs)
      {s' : SimpleFs} {listing : List DirectoryEntry}
    → readdir full inode (pos start) s ≡ done s' listing
    → (all : DirectoryDescriptor) × (get_directory_content inode s ≡ done s all)
      × (s' ≡ s)
      × IsListing all start listing
unfolding readdir IsListing
readdir-IsListing full inode start s {s'} {listing} h = (
  ran.0,
  ran.2,
  ground (arith, ran.1),
  subst (IsListing ran.0 start) listed (
      add_entries-IsListing full ran.0 (skip start ran.0) start [] start (omega arith) refl
        nothing),
)
  where
    rest : DirectoryDescriptor → Handler (List DirectoryEntry)
    rest entries = reply (add_entries full [] start (skip start entries))

    quiet : Kept s (get_directory_content inode s)
    quiet = (Quiet-get_directory_content inode).keep s

    ran :
        (all : DirectoryDescriptor) × (rest all s ≡ done s' listing)
        × (get_directory_content inode s ≡ done s all)
    ran = Kept-inversion s (get_directory_content inode s) rest quiet h

    listed : add_entries full [] start (skip start ran.0) ≡ listing
    listed = cc (ran.1)

    nothing : IsListing ran.0 start []
    nothing = λ i e g. absurd cc
