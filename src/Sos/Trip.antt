-- ===== src/Sos/Trip.antt =====
-- The two halves of sos-rs/src/lib.rs together.
use faastr.Common.{
  ◌^◌, ◌≤◌, ◌<◌, ◌≡◌, refl, true, false, ◌++◌, some, arith, length, drop, length-append,
}
use faastr.Sos.Bytes.{Bytes, NativeEndian}
use faastr.Sos.Value.{
  Value, Values, nil, cons, embedded_in, embedded_vec, embedded_out, count, encoded_len,
}
use faastr.Sos.Encode.{encode_sos}
use faastr.Sos.Encode.Wire.{no_iter, no_iters, wire, length-body}
use faastr.Sos.Encode.Correct.{encode_sos_lem}
use faastr.Sos.Decode.{Outcome, value, nothing, decode_sos, collect, part}
use faastr.Sos.Decode
use faastr.Sos.Decode.Sound.{Sound, Sounds, all_owned}
use faastr.Sos.Decode.RoundTrip.{collect-wire}

mutual
  unfolding Sound no_iter

  Sound-no_iter : (v : Value) → Sound v → no_iter v ≡ true
  Sound-no_iter (embedded_out f) s = absurd s
  Sound-no_iter (embedded_in i) s = Sounds-no_iters i s.2
  Sound-no_iter (embedded_vec i) s = Sounds-no_iters i s.2
  Sound-no_iter _ s = refl

  pub Sounds-no_iters : (vs : Values) → Sounds vs → no_iters vs ≡ true
  Sounds-no_iters nil s = refl
  Sounds-no_iters (cons v vs) s = rw (Sound-no_iter v s.0) (Sounds-no_iters vs s.1)

module _ (ne : NativeEndian) where
  -- Values that fit their fields survive the trip: encoding into a buffer with room enough, then
  -- decoding that buffer and collecting, gives the values back (slices of values as vectors),
  -- without a panic or a recursion without end, however deep they nest. The list and every list in
  -- it is not empty, no iterator over encoded values is among them, numbers and sizes fit 32 or 64
  -- bits, texts are UTF-8, and no module's name holds a 0 byte.
  pub decode_sos-encode_sos :
      (vs : Values) (buf : Bytes)
      → 0 < count vs
      → encoded_len vs < 2 ^ 32
      → Sounds vs
      → encoded_len vs ≤ length buf
      → (buf' : Bytes) × (encode_sos ne buf vs ≡ some (buf', encoded_len vs))
        × (Decode.◌>>=◌ (decode_sos ne buf' false) (collect ne (length buf'))
            ≡ value (all_owned vs))
  unfolding encoded_len
  decode_sos-encode_sos vs buf p q s room =
      let (e, l) = encode_sos_lem ne vs buf (Sounds-no_iters vs s) room in
      let rest = drop (encoded_len vs) buf in
      (
        wire ne vs ++ rest,
        e,
        collect-wire ne vs rest (length (wire ne vs ++ rest)) p q s
            (omega (arith, length-append (wire ne vs) rest, l, length-body ne vs)),
      )
