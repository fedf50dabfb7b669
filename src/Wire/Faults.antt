-- ===== src/Wire/Faults.antt =====
-- fuse/src/uring_fuse: the messages that make the session panic before it dispatches them.
use fairy.Prelude.{
  ℕ, zero, suc, ◌+◌, ◌-◌, ◌/◌, ◌%◌, ◌≡◌, ◌↔◌, ◌⊎◌, inl, inr, ◌≤◌, ◌<◌, refl, ap, ◌∙◌, true, false,
  none, some, [], ◌∷◌, length, take, ltb, arith, ◌>>=◌, Option, Bool, if◌then◌else◌,
}
use mathlib.Core.Path.{subst}
use fairy.Prelude.BTreeMap.{Bytes}
use fairy.Wire.{
  Crates, Layout, bytes, Fields, size_of, Fetched, panicked, missing, fetched, ArgumentIterator,
  fetch,
}
use fairy.Wire.Layouts.{fuse_in_header}
use fairy.Wire.Parsing.{FuseOpcode, Parsed, try_from, parse}
use fairy.Wire.Requests.{
  AnyRequest, RequestError, ok, err, len, opcode_of, sliced, parsed, parsed_as, operation,
  requested, receive, try_from_bytes,
}
use fairy.Wire.Encoding.{put_word, put_fields, FitFields}
use fairy.Wire.Encoded.{fetch-put_fields}
use fairy.Wire.Words.{AreBytes}
use fairy.Wire.Fetching.{Results, fetch_front}
use fairy.Wire.Matching.{parse_panics_iff}
use fairy.Wire.Front.{IsMismatch}

take-AreBytes : (n : ℕ) (bs : Bytes) → AreBytes bs → AreBytes (take n bs)
take-AreBytes zero bs b = tt
take-AreBytes (suc n) [] b = tt
take-AreBytes (suc n) (x ∷ bs) b = (b.0, take-AreBytes n bs b.1)

-- The request whose header is followed by these bytes.
abbrev sent : Fields fuse_in_header → ArgumentIterator → AnyRequest
sent h it = record {
  header = h;
  arguments = record it { left = take (len h - size_of fuse_in_header) it.left };
}

-- The header says less than its own size; or it says what came, with an operation that is a mismatch.
abbrev pub IsFault : Fields fuse_in_header → Bytes → Type 0
IsFault h rest =
    (len h < size_of fuse_in_header)
    ⊎ ((size_of fuse_in_header ≤ len h)
        × (op : FuseOpcode) × (try_from (opcode_of h) ≡ some op)
        × IsMismatch op (take (len h - size_of fuse_in_header) rest))

parsed-panicked : (m : Fetched Parsed) → parsed m ≡ none → m ≡ panicked
parsed-panicked panicked e = refl
parsed-panicked missing e = absurd cc
parsed-panicked (fetched p) e = absurd cc

parsed_as-none :
    ⦃crates : Crates⦄ (n : ℕ) (it : ArgumentIterator) (o : Option FuseOpcode)
    → parsed_as n it o ≡ none
    → (op : FuseOpcode) × (o ≡ some op) × (parse op it ≡ panicked)
parsed_as-none n it none e = absurd cc
parsed_as-none n it (some op) e = (op, refl, parsed-panicked (parse op it) e)

>>=-none : {A B : Type 0} (m : Option A) (f : A → B) → (m >>= λ a. some (f a)) ≡ none → m ≡ none
>>=-none none f e = refl
>>=-none (some a) f e = absurd cc

AreBytes-put_word : (n v : ℕ) (rest : Bytes) → AreBytes (put_word n v rest) → AreBytes rest
unfolding put_word
AreBytes-put_word zero v rest b = b
AreBytes-put_word (suc n) v rest b = AreBytes-put_word n (v / 256) rest b.1

AreBytes-put_fields :
    (ws : Layout) (f : Fields ws) (rest : Bytes) → AreBytes (put_fields ws f rest) → AreBytes rest
unfolding put_fields
AreBytes-put_fields [] f rest b = b
AreBytes-put_fields (w ∷ ws) f rest b =
    AreBytes-put_fields ws f.1 rest (AreBytes-put_word (bytes w) f.0 (put_fields ws f.1 rest) b)

-- Of the tests on the length of the header.
chosen-none :
    ⦃crates : Crates⦄ (a b : Bool) (e : RequestError) (req : AnyRequest)
    → ((if a then some (err e) else if b then none else some (ok req)) >>= requested) ≡ none
    → (a ≡ false) × ((b ≡ true) ⊎ ((b ≡ false) × (operation req ≡ none)))
chosen-none true b e req n = absurd cc
chosen-none false true e req n = (refl, inl refl)
chosen-none false false e req n = (refl, inr (refl, >>=-none (operation req) _ n))

module _ ⦃crates : Crates⦄ (h : Fields fuse_in_header) (it : ArgumentIterator)
    (aligned : it.address % 8 ≡ 0) (b : AreBytes it.left) where
  left_bytes : AreBytes (take (len h - size_of fuse_in_header) it.left)
  left_bytes = take-AreBytes (len h - size_of fuse_in_header) it.left b

  parse-IsMismatch :
      (op : FuseOpcode)
      → (parse op (sent h it).arguments ≡ panicked)
        ↔ IsMismatch op (take (len h - size_of fuse_in_header) it.left)
  parse-IsMismatch op = parse_panics_iff op (sent h it).arguments aligned left_bytes

  operation-none :
      operation (sent h it) ≡ none
      → (op : FuseOpcode) × (try_from (opcode_of h) ≡ some op)
        × IsMismatch op (take (len h - size_of fuse_in_header) it.left)
  unfolding operation
  operation-none e =
      let (op, c, p) = parsed_as-none _ _ (try_from (opcode_of h)) e in
      (op, c, (parse-IsMismatch op).0 p)

  mismatch-none :
      (op : FuseOpcode)
      → try_from (opcode_of h) ≡ some op
      → IsMismatch op (take (len h - size_of fuse_in_header) it.left)
      → operation (sent h it) ≡ none
  unfolding operation
  mismatch-none op c m = rw (c, (parse-IsMismatch op).1 m)

  fault :
      (n : ℕ) → (sliced n (fetched (h, it)) >>= requested) ≡ none → (len h ≤ n) × IsFault h it.left
  fault n e =
      let (a, c) =
        chosen-none (ltb n (len h)) (ltb (len h) (size_of fuse_in_header)) _ (sent h it) e in
      (
        ground arith,
        elim c [
          | inl short ↦ inl (ground arith)
          | inr (full, o) ↦ let (op, code, m) = operation-none o in inr (ground arith, op, code, m)
        ],
      )

  fault-none :
      (n : ℕ) → len h ≤ n → IsFault h it.left → (sliced n (fetched (h, it)) >>= requested) ≡ none
  fault-none n enough (inl short) =
      let a : ltb n (len h) ≡ false = ground arith in
      let c : ltb (len h) (size_of fuse_in_header) ≡ true = ground arith in rw (a, c)
  fault-none n enough (inr (full, op, code, m)) =
      let a : ltb n (len h) ≡ false = ground arith in
      let c : ltb (len h) (size_of fuse_in_header) ≡ false = ground arith in
      rw (a, c, mismatch-none op code m)

sliced-none :
    ⦃crates : Crates⦄ {Q : Fields fuse_in_header × ArgumentIterator → Type 0} (n : ℕ)
    (m : Fetched (Fields fuse_in_header × ArgumentIterator))
    → Results ⊥ m Q
    → (sliced n m >>= requested) ≡ none
    → (r : Fields fuse_in_header × ArgumentIterator) × Q r
      × ((sliced n (fetched r) >>= requested) ≡ none)
sliced-none n panicked q e = absurd q
sliced-none n missing q e = absurd cc
sliced-none n (fetched r) q e = (r, q, e)

-- A message at an aligned address makes the session panic before anything is dispatched exactly where it
-- begins with a header whose length is not more than what came, and this length is less than the header
-- itself, or the operation is a write or a setting of an attribute whose own length is not that of the
-- bytes behind it.
pub receive_panics_iff :
    ⦃crates : Crates⦄ (address : ℕ) (bs : Bytes)
    → address % 8 ≡ 0
    → AreBytes bs
    → (receive address bs ≡ none) ↔ (
        (h : Fields fuse_in_header) × (rest : Bytes) × (bs ≡ put_fields fuse_in_header h rest)
        × FitFields fuse_in_header h
        × (len h ≤ length bs)
        × IsFault h rest)
unfolding receive try_from_bytes
receive_panics_iff address bs aligned b = (
  λ e.
      let it : ArgumentIterator = record { address = address; left = bs } in
      let ((h, it'), (front, fits, left, moved), e') =
        sliced-none (length bs) (fetch fuse_in_header it) (fetch_front it b fuse_in_header aligned)
          e in
      let (enough, broken) = fault h it' (omega (arith, moved, aligned)) left (length bs) e' in
      (h, it'.left, front, fits, enough, broken),
  λ (h, rest, front, fits, enough, broken).
      let it : ArgumentIterator = record {
        address = address + size_of fuse_in_header;
        left = rest;
      } in
      let found : fetch fuse_in_header (record { address = address; left = bs }) ≡ fetched (h, it) =
        ap (λ bs. fetch fuse_in_header (record { address = address; left = bs })) front
        ∙ fetch-put_fields address fuse_in_header h rest aligned fits in
      ap (λ m. sliced (length bs) m >>= requested) found
      ∙ fault-none h it (omega arith)
          (AreBytes-put_fields fuse_in_header h rest (subst AreBytes front b)) (length bs) enough
          broken,
)
