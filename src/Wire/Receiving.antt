-- ===== src/Wire/Receiving.antt =====
-- fuse/src/uring_fuse: a message that has the layout of a request reaches the session as that request;
-- and where the header of a message makes op.rs panic.
use fairy.Prelude.{
  ℕ, zero, suc, ◌+◌, ◌-◌, ◌/◌, ◌%◌, ◌≡◌, ◌≤◌, ap, ◌∙◌, false, some, [], ◌∷◌, ◌++◌, length,
  take-append, length-append, ltb, arith,
}
use fairy.Prelude.BTreeMap.{Bytes}
use fairy.Session.Running.{request}
use fairy.Wire.{Crates, bytes, Layout, Fields, size_of, fetched}
use fairy.Wire.Layouts.{fuse_in_header}
use fairy.Wire.Parsing.{try_from, Parsed}
use fairy.Wire.Requests.{
  len, opcode_of, for_session, ok, sliced, try_from_bytes, operation, receive,
}
use fairy.Wire.Encoding.{put_word, put_fields, encode, opcode, FitFields, Fits}
use fairy.Wire.Encoded.{fetch-put_fields, parse-encode}

length-put_word : (n v : ℕ) (rest : Bytes) → length (put_word n v rest) ≡ n + length rest
unfolding put_word
length-put_word zero v rest = omega arith
length-put_word (suc n) v rest = omega (arith, length-put_word n (v / 256) rest)

length-put_fields :
    (ws : Layout) (f : Fields ws) (rest : Bytes)
    → length (put_fields ws f rest) ≡ size_of ws + length rest
unfolding put_fields
length-put_fields [] f rest = omega arith
length-put_fields (w ∷ ws) f rest =
    omega
      (arith, length-put_word (bytes w) f.0 (put_fields ws f.1 rest), length-put_fields ws f.1 rest)

-- A message: the header, the arguments, and what the buffer has behind them.
unfoldable pub message : Fields fuse_in_header → Parsed → Bytes → Bytes → Bytes
unfolding put_fields encode
message h p rest trailing = put_fields fuse_in_header h (encode p rest ++ trailing)

sliced_lem :
    (n address : ℕ) (h : Fields fuse_in_header) (body trailing : Bytes)
    → len h ≡ size_of fuse_in_header + length body
    → len h ≤ n
    → sliced n (fetched (h, record { address = address; left = body ++ trailing }))
      ≡ some (ok (record { header = h; arguments = record { address = address; left = body } }))
sliced_lem n address h body trailing whole enough =
    let all : ltb n (len h) ≡ false = ground arith in
    let has_header : ltb (len h) (size_of fuse_in_header) ≡ false = ground arith in
    let size : len h - size_of fuse_in_header ≡ length body = omega arith in
    rw (all, has_header, size, take-append body trailing)

module _ ⦃crates : Crates⦄ (address : ℕ) (h : Fields fuse_in_header) (p : Parsed)
    (rest trailing : Bytes) (aligned : address % 8 ≡ 0) (header_fits : FitFields fuse_in_header h)
    (fits : Fits p rest) (whole : len h ≡ size_of fuse_in_header + length (encode p rest))
    (code : try_from (opcode_of h) ≡ some (opcode p)) where
  try_from_bytes-message :
      try_from_bytes address (message h p rest trailing)
      ≡ some (
          ok (record {
            header = h;
            arguments = record { address = address + size_of fuse_in_header; left = encode p rest };
          }))
  unfolding try_from_bytes message
  try_from_bytes-message =
      ap (sliced _)
        (fetch-put_fields address fuse_in_header h (encode p rest ++ trailing) aligned header_fits)
      ∙ sliced_lem _ _ h (encode p rest) trailing whole (
          omega (
            arith,
            length-put_fields fuse_in_header h (encode p rest ++ trailing),
            length-append (encode p rest) trailing,
          ))

  operation-message :
      operation (record {
        header = h;
        arguments = record { address = address + size_of fuse_in_header; left = encode p rest };
      })
      ≡ some (ok p)
  unfolding operation
  operation-message =
      rw (code, parse-encode (address + size_of fuse_in_header) p rest (omega arith) fits)

  -- A message at an aligned address that has the layout of a request, with a header that says its length
  -- and the code of its operation, and with any bytes behind it, is received as the request of that
  -- operation, with the number, the node and the user of the header.
  pub receive-message :
      receive address (message h p rest trailing) ≡ some (request (some (for_session h (ok p))))
  unfolding receive
  receive-message = rw (try_from_bytes-message, operation-message)
