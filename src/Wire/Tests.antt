-- ===== src/Wire/Tests.antt =====
-- fuse/src/uring_fuse/low_level on concrete messages.
use fairy.Prelude.{
  ◌%◌, ◌==◌, if◌then◌else◌, ℕ, zero, suc, ◌+◌, ◌≡◌, ◌↔◌, ◌≤◌, refl, none, some, [], ◌∷◌, length,
  arith,
}
use fairy.Prelude.BTreeMap.{Bytes}
use fairy.Session.Running.{request}
use fairy.Session.Operations.{Operation}
use fairy.Wire.{
  Crates, align_of, take_fields, take_slice, position, Fields, size_of, panicked, missing, fetched,
  ArgumentIterator,
}
use fairy.Wire.Layouts.{fuse_in_header}
use fairy.Wire.Parsing.{fuse_mkdir, fuse_setxattr, fuse_batch_forget, Parsed, parse, try_from}
use fairy.Wire.Meaning.{meaning}
use fairy.Wire.Requests.{
  short_read_header, short_read, ok, err, len, for_session, opcode_of, try_from_bytes, receive,
}
use fairy.Wire.Encoding.{put_fields, FitFields, encode, opcode}
use fairy.Wire.Words.{AreBytes}
use fairy.Wire.Matching.{parse_iff}
use fairy.Wire.Front.{IsParsed}
use fairy.Wire.Receiving.{message, receive-message}
use fairy.Wire.Faults.{IsFault, receive_panics_iff}

-- What the crates document can be.
instance abbrev reading : Crates
reading = record {
  new_from_prefix = λ ws address bs. if address % align_of ws == 0 then take_fields ws bs else none;
  new_slice_from_prefix =
      λ ws count address bs. if address % align_of ws == 0 then take_slice ws count bs else none;
  memchr = position;
  new_from_prefix_lem = λ ws address bs. refl;
  new_slice_from_prefix_lem = λ ws count address bs. refl;
  memchr_lem = λ b bs. refl;
}

-- The arguments of `mkdir` with mode 0o755 and umask 0o22, of the name `a`.
abbrev mkdir_bytes : Bytes
mkdir_bytes = 237 ∷ 1 ∷ 0 ∷ 0 ∷ 18 ∷ 0 ∷ 0 ∷ 0 ∷ 97 ∷ 0 ∷ []

abbrev mkdir_a : Parsed
mkdir_a = Parsed.mkdir (493, (18, tt)) (97 ∷ [])

abbrev at : Bytes → ArgumentIterator
at bs = record { address = 40; left = bs }

mkdir_bytes-AreBytes : AreBytes mkdir_bytes
mkdir_bytes-AreBytes = (
  omega arith,
  (
    omega arith,
    (
      omega arith,
      (
        omega arith,
        (
          omega arith,
          (omega arith, (omega arith, (omega arith, (omega arith, (omega arith, tt))))),
        ),
      ),
    ),
  ),
)

parse_iff_example :
    (parse fuse_mkdir (at mkdir_bytes) ≡ fetched mkdir_a) ↔ IsParsed fuse_mkdir mkdir_bytes mkdir_a
parse_iff_example = parse_iff fuse_mkdir (at mkdir_bytes) mkdir_a refl mkdir_bytes-AreBytes

mkdir_parsed : parse fuse_mkdir (at mkdir_bytes) ≡ fetched mkdir_a
unfolding parse take_fields take_slice position
mkdir_parsed = refl

name_not_ended : parse fuse_mkdir (at (237 ∷ 1 ∷ 0 ∷ 0 ∷ 18 ∷ 0 ∷ 0 ∷ 0 ∷ 97 ∷ [])) ≡ missing
unfolding parse take_fields take_slice position
name_not_ended = refl

two_forgotten :
    parse fuse_batch_forget (
      at (
        1 ∷ 0 ∷ 0 ∷ 0 ∷ 0 ∷ 0 ∷ 0 ∷ 0 ∷ 3 ∷ 0 ∷ 0 ∷ 0 ∷ 0 ∷ 0 ∷ 0 ∷ 0 ∷ 0 ∷ 1 ∷ 0 ∷ 0 ∷ 0 ∷ 0 ∷ 0
        ∷ 0 ∷ []))
    ≡ fetched (Parsed.batch_forget (1, (0, tt)) ((3, (256, tt)) ∷ []))
unfolding parse take_fields take_slice position
two_forgotten = refl

value_too_short :
    parse fuse_setxattr (at (2 ∷ 0 ∷ 0 ∷ 0 ∷ 0 ∷ 0 ∷ 0 ∷ 0 ∷ 97 ∷ 0 ∷ 5 ∷ [])) ≡ panicked
unfolding parse take_fields take_slice position
value_too_short = refl

abbrev mkdir_header : Fields fuse_in_header
mkdir_header = (50, (9, (7, (1, (1000, (1000, (5, (0, tt))))))))

mkdir_header-FitFields : FitFields fuse_in_header mkdir_header
mkdir_header-FitFields = (
  omega arith,
  (
    omega arith,
    (omega arith, (omega arith, (omega arith, (omega arith, (omega arith, (omega arith, tt)))))),
  ),
)

mkdir_whole : len mkdir_header ≡ size_of fuse_in_header + length (encode mkdir_a [])
unfolding encode
mkdir_whole = refl

mkdir_code : try_from (opcode_of mkdir_header) ≡ some (opcode mkdir_a)
unfolding try_from
mkdir_code = refl

receive-message_example :
    receive 0 (message mkdir_header mkdir_a [] (1 ∷ []))
    ≡ some (request (some (for_session mkdir_header (ok mkdir_a))))
receive-message_example =
    receive-message 0 mkdir_header mkdir_a [] (1 ∷ []) refl mkdir_header-FitFields
      ((omega arith, (omega arith, tt)), (omega arith, tt)) mkdir_whole mkdir_code

mkdir_operation : for_session mkdir_header (ok mkdir_a) ≡ record {
  unique = 7;
  nodeid = 1;
  uid = 1000;
  operation = some (Operation.mkdir (97 ∷ []) 493 18);
}
unfolding meaning
mkdir_operation = refl

abbrev zeros : ℕ → Bytes
zeros zero = []
zeros (suc n) = 0 ∷ zeros n

zeros-AreBytes : (n : ℕ) → AreBytes (zeros n)
zeros-AreBytes zero = tt
zeros-AreBytes (suc n) = (omega arith, zeros-AreBytes n)

-- A header that says that it is shorter than it is.
abbrev short : Bytes
short = 39 ∷ zeros 39

receive_panics_iff_example : (receive 0 short ≡ none) ↔ (
    (h : Fields fuse_in_header) × (rest : Bytes) × (short ≡ put_fields fuse_in_header h rest)
    × FitFields fuse_in_header h
    × (len h ≤ length short)
    × IsFault h rest)
receive_panics_iff_example = receive_panics_iff 0 short refl (omega arith, zeros-AreBytes 39)

short_panics : receive 0 short ≡ none
unfolding receive take_fields
short_panics = refl

no_header : try_from_bytes 0 (zeros 39) ≡ some (err (short_read_header 39))
unfolding try_from_bytes take_fields
no_header = refl

cut_off : try_from_bytes 0 (41 ∷ zeros 39) ≡ some (err (short_read 40 41))
unfolding try_from_bytes take_fields
cut_off = refl
