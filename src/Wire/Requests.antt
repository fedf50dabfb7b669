-- ===== src/Wire/Requests.antt =====
-- fuse/src/uring_fuse/low_level: op.rs has a request that has its header, request.rs the errors; and
-- what request.rs of fuse/src/uring_fuse makes of a message for the session. none is a panic.
use fairy.Prelude.{ℕ, ◌-◌, Option, none, some, ltb, length, take, if◌then◌else◌, ◌>>=◌}
use fairy.Prelude.BTreeMap.{Bytes}
use fairy.Session.{Request}
use fairy.Session.Running.{Received, request}
use fairy.Wire.{
  Crates, Fields, Fetched, panicked, missing, fetched, ArgumentIterator, fetch, size_of,
}
use fairy.Wire.Layouts.{fuse_in_header}
use fairy.Wire.Parsing.{FuseOpcode, Parsed, parse, try_from}
use fairy.Wire.Meaning.{meaning}

pub data RequestError : Type 0 where
  short_read_header : ℕ → RequestError
  unknown_operation : ℕ → RequestError
  short_read : ℕ → ℕ → RequestError
  insufficient_data : RequestError

pub data Result (A : Type 0) : Type 0 where
  ok : A → Result A
  err : RequestError → Result A

-- The header, and the bytes behind it with their address.
pub record AnyRequest : Type 0 where
  pub header : Fields fuse_in_header
  pub arguments : ArgumentIterator

abbrev pub len : Fields fuse_in_header → ℕ
len h = h.0

abbrev pub opcode_of : Fields fuse_in_header → ℕ
opcode_of h = h.1.0

abbrev pub unique : Fields fuse_in_header → ℕ
unique h = h.1.1.0

abbrev pub nodeid : Fields fuse_in_header → ℕ
nodeid h = h.1.1.1.0

abbrev pub uid : Fields fuse_in_header → ℕ
uid h = h.1.1.1.1.0

-- The slice of the bytes from behind the header to the length that the header says.
abbrev pub sliced :
    ℕ → Fetched (Fields fuse_in_header × ArgumentIterator) → Option (Result AnyRequest)
sliced data_len panicked = none
sliced data_len missing = some (err (short_read_header data_len))
sliced data_len (fetched (h, it)) =
    if ltb data_len (len h)
    then some (err (short_read data_len (len h)))
    else if ltb (len h) (size_of fuse_in_header)
    then none
    else some (
        ok (record {
          header = h;
          arguments = record it { left = take (len h - size_of fuse_in_header) it.left };
        }))

unfoldable pub try_from_bytes : ⦃crates : Crates⦄ → ℕ → Bytes → Option (Result AnyRequest)
unfolding fetch
try_from_bytes address bs =
    sliced (length bs) (fetch fuse_in_header (record { address = address; left = bs }))

abbrev pub parsed : Fetched Parsed → Option (Result Parsed)
parsed panicked = none
parsed missing = some (err insufficient_data)
parsed (fetched p) = some (ok p)

abbrev pub parsed_as :
    ⦃crates : Crates⦄ → ℕ → ArgumentIterator → Option FuseOpcode → Option (Result Parsed)
parsed_as n it none = some (err (unknown_operation n))
parsed_as n it (some op) = parsed (parse op it)

unfoldable pub operation : ⦃crates : Crates⦄ → AnyRequest → Option (Result Parsed)
unfolding parse try_from
operation req = parsed_as (opcode_of req.header) req.arguments (try_from (opcode_of req.header))

-- A request whose operation cannot be parsed is a request still.
abbrev pub for_session : Fields fuse_in_header → Result Parsed → Request
for_session h o = record {
  unique = unique h;
  nodeid = nodeid h;
  uid = uid h;
  operation = elim o [ ok p ↦ some (meaning (nodeid h) p) | err e ↦ none ];
}

abbrev pub requested : ⦃crates : Crates⦄ → Result AnyRequest → Option Received
requested (err e) = some (request none)
requested (ok req) = operation req >>= λ o. some (request (some (for_session req.header o)))

-- The operation is parsed here, and not when the request is dispatched: it depends on the request only.
unfoldable pub receive : ⦃crates : Crates⦄ → ℕ → Bytes → Option Received
unfolding try_from_bytes operation meaning
receive address bs = try_from_bytes address bs >>= requested
