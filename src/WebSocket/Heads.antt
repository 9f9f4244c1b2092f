-- ===== src/WebSocket/Heads.antt =====
-- The header of a frame in the buffer of OnDataReceivedWebSocket.
use http2serv.Prelude.{ℕ, ◌+◌, ◌*◌, ◌^◌, ◌<◌, ◌≡◌, refl, sym, ap, ◌∙◌, arith, tests}
use http2serv.Prelude.{Bool, true, false, ltb, leb, ◌==◌, Bool-cases, inl, inr}
use http2serv.Prelude.{
  List, ◌∷◌, ◌++◌, Option, none, some, length, take, drop, take-append, drop-append, length-append,
  be_bytes, be_value-be_bytes, length-be_bytes,
}
use mathlib.Core.List.{append_assoc}
use http2serv.WebSocket.{Header, header_of, SocketParam}
use http2serv.WebSocket.Frames.{
  Key, key_bytes, Kind, op_of, Frame, bit, short_length, long_length, masked_bit, masked,
  option_bytes, frame_bytes, IsFrame,
}
use http2serv.WebSocket.Receive.{read_be, read_length, read_mask, new_frame}

-- A list in front of another, by its length.
pub take_front {ℓ} : {A : Type ℓ} (n : ℕ) (xs ys : List A) → length xs ≡ n → take n (xs ++ ys) ≡ xs
take_front n xs ys h = rw (sym h) (take-append xs ys)

pub drop_front {ℓ} : {A : Type ℓ} (n : ℕ) (xs ys : List A) → length xs ≡ n → drop n (xs ++ ys) ≡ ys
drop_front n xs ys h = rw (sym h) (drop-append xs ys)

read_be-be_bytes :
    (k v : ℕ) (rest : List ℕ) → v < 256 ^ k → read_be k (be_bytes k v ++ rest) ≡ some (v, k, rest)
unfolding read_be
read_be-be_bytes k v rest h =
    let e : leb k (length (be_bytes k v ++ rest)) ≡ true =
      ground (arith, length-append (be_bytes k v) rest, length-be_bytes k v) in
    rw
      (
        e,
        take_front k (be_bytes k v) rest (length-be_bytes k v),
        drop_front k (be_bytes k v) rest (length-be_bytes k v),
        be_value-be_bytes k v h,
      )
      refl

read_length-long_length :
    (n : ℕ) (rest : List ℕ)
    → n < 2 ^ 32
    → read_length (short_length n) (long_length n ++ rest) ≡ some (n, length (long_length n), rest)
unfolding read_length short_length long_length
read_length-long_length n rest h = elim (Bool-cases (ltb n 126)) [
  | inl small ↦
      let a : (n == 126) ≡ false = ground (arith, small) in
      let b : (n == 127) ≡ false = ground (arith, small) in rw (small, a, b) refl
  | inr big ↦ elim (Bool-cases (ltb n 65536)) [
    | inl middle ↦
        rw (big, middle, length-be_bytes 2 n) (read_be-be_bytes 2 n rest (omega (tests, middle)))
    | inr large ↦
        rw (big, large, length-be_bytes 8 n) (read_be-be_bytes 8 n rest (omega (arith, h)))
  ]
]

abbrev pub kept_mask : List ℕ → Option Key → List ℕ
kept_mask old none = old
kept_mask old (some k) = key_bytes k

read_mask-option_bytes :
    (head : Header) (old : List ℕ) (key : Option Key) (rest : List ℕ)
    → head.mask ≡ masked_bit key
    → read_mask head old (option_bytes key ++ rest)
      ≡ some (kept_mask old key, length (option_bytes key), rest)
unfolding read_mask
read_mask-option_bytes head old none rest h = rw h refl
read_mask-option_bytes head old (some k) rest h = rw h (ground arith)

-- The state behind the header of a frame, its two first bytes and the length of its header.
unfoldable pub head_byte : Frame → ℕ
head_byte f = op_of f.kind + bit f.is_last * 128

unfoldable pub length_byte : Frame → ℕ
length_byte f = short_length (length f.payload) + masked_bit f.key * 128

abbrev pub opened : SocketParam → Frame → SocketParam
opened st f = record {
  st_header = header_of (head_byte f) (length_byte f);
  len = length f.payload;
  mask = kept_mask st.mask f.key;
  received = st.received;
}

abbrev pub head_len : Frame → ℕ
head_len f = 2 + length (long_length (length f.payload)) + length (option_bytes f.key)

short_length_small : (n : ℕ) → short_length n < 128
unfolding short_length
short_length_small n = ground arith

header_pload :
    (b n : ℕ) (key : Option Key)
    → (header_of b (short_length n + masked_bit key * 128)).pload ≡ short_length n
unfolding header_of
header_pload b n none = omega (arith, short_length_small n)
header_pload b n (some k) = omega (arith, short_length_small n)

pub header_mask :
    (b n : ℕ) (key : Option Key)
    → (header_of b (short_length n + masked_bit key * 128)).mask ≡ masked_bit key
unfolding header_of
header_mask b n none = omega (arith, short_length_small n)
header_mask b n (some k) = omega (arith, short_length_small n)

behind_assoc : (xs ys zs rest : List ℕ) → (xs ++ (ys ++ zs)) ++ rest ≡ xs ++ (ys ++ (zs ++ rest))
behind_assoc xs ys zs rest =
    append_assoc xs (ys ++ zs) rest ∙ ap (λ l. xs ++ l) (append_assoc ys zs rest)

new_frame-reads :
    (st : SocketParam) (b c len more key : ℕ) (mask rest mid end : List ℕ)
    → read_length (header_of b c).pload rest ≡ some (len, more, mid)
    → read_mask (header_of b c) st.mask mid ≡ some (mask, key, end)
    → new_frame st (b ∷ c ∷ rest)
      ≡ some (
        record { st_header = header_of b c; len = len; mask = mask; received = st.received },
        2 + more + key,
        end,
      )
unfolding new_frame
new_frame-reads st b c len more key mask rest mid end h k = rw (new_frame, h, k) refl

pub new_frame-frame_bytes :
    (st : SocketParam) (f : Frame) (rest : List ℕ)
    → IsFrame f
    → new_frame st (frame_bytes f ++ rest)
      ≡ some (opened st f, head_len f, masked f.key f.payload ++ rest)
unfolding frame_bytes head_byte length_byte
new_frame-frame_bytes st f rest h =
    let n = length f.payload in
    let end = masked f.key f.payload ++ rest in
    rw
      (
        behind_assoc (long_length n) (option_bytes f.key) (masked f.key f.payload) rest,
        new_frame-reads st (head_byte f) (length_byte f) n (length (long_length n))
            (length (option_bytes f.key)) (kept_mask st.mask f.key)
            (long_length n ++ (option_bytes f.key ++ end)) (option_bytes f.key ++ end) end
            (ap (λ p. read_length p (long_length n ++ (option_bytes f.key ++ end)))
                (header_pload (head_byte f) n f.key)
              ∙ read_length-long_length n (option_bytes f.key ++ end) h.0)
            (read_mask-option_bytes (header_of (head_byte f) (length_byte f)) st.mask f.key end
              (header_mask (head_byte f) n f.key)),
      )
      refl

pub header_op_code :
    (k : Kind) (is_last : Bool) (c : ℕ)
    → (header_of (op_of k + bit is_last * 128) c).op_code ≡ op_of k
unfolding header_of
header_op_code Kind.continuation true c = refl
header_op_code Kind.continuation false c = refl
header_op_code Kind.whole_text true c = refl
header_op_code Kind.whole_text false c = refl
header_op_code Kind.binary_data true c = refl
header_op_code Kind.binary_data false c = refl
header_op_code Kind.heard_pong true c = refl
header_op_code Kind.heard_pong false c = refl

pub header_fin :
    (k : Kind) (is_last : Bool) (c : ℕ)
    → (header_of (op_of k + bit is_last * 128) c).fin ≡ bit is_last
unfolding header_of
header_fin Kind.continuation true c = refl
header_fin Kind.continuation false c = refl
header_fin Kind.whole_text true c = refl
header_fin Kind.whole_text false c = refl
header_fin Kind.binary_data true c = refl
header_fin Kind.binary_data false c = refl
header_fin Kind.heard_pong true c = refl
header_fin Kind.heard_pong false c = refl
