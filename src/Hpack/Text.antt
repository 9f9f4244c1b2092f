-- ===== src/Hpack/Text.antt =====
-- DecodeString and EncodeString of HPack.cpp.
pub mod RoundTrip
use http2serv.Prelude.{ℕ, suc, ◌+◌, ◌≡◌, refl, bit_and, codes, Bool}
use http2serv.Prelude.{List, [], ◌∷◌, ◌++◌, Option, none, some, ltb, ◌==◌, if◌then◌else◌, ◌||◌}
use http2serv.Prelude.{length, take, drop}
use http2serv.Hpack.Result.{Result, ok, throw, fault, ◌>>=◌, buffsize_error, compression_error}
use http2serv.Hpack.Integer.{encode_integer, decode_integer}
use http2serv.Hpack.Huffman.{huffman_encode, huffman_decode}

-- The length behind the seven bit prefix.
unfoldable pub decode_length : ℕ → List ℕ → Result (ℕ × List ℕ)
decode_length len rest =
    if bit_and len 0x7f == 0x7f
    then (do (n, rest') ← decode_integer rest 0 0; ok (len + n, rest'))
    else ok (len, rest)

unfoldable pub string_contents : Bool → ℕ → List ℕ → Result (List ℕ × List ℕ)
string_contents encoded len rest =
    let decoded = huffman_decode (take len rest) in
    if ltb (length rest) len
    then throw buffsize_error
    else if encoded
    then (if decoded.1 == 1 || decoded.1 == 2
        then throw compression_error
        else ok (decoded.0, drop len rest))
    else ok (take len rest, drop len rest)

unfoldable pub decode_string : List ℕ → Result (List ℕ × List ℕ)
unfolding decode_length string_contents
decode_string [] = throw buffsize_error
decode_string (b ∷ bs) = do
  (len, rest) ← decode_length (bit_and b 0x7f) bs
  string_contents (bit_and b 0x80 == 0x80) len rest

-- The length `EncodeInteger` wrote and the bytes behind it, if both fit.
unfoldable pub with_length : ℕ → Option (List ℕ) → List ℕ → Option (List ℕ)
with_length size none s = none
with_length size (some prefix) s =
    if ltb size (length prefix + length s) then none else some (prefix ++ s)

unfoldable pub encode_plain : ℕ → List ℕ → Option (List ℕ)
unfolding with_length
encode_plain size s = with_length size (encode_integer size (length s) 0x7f 0x00) s

-- The Huffman code is used where it is shorter than the text; SIZE_MAX is not.
unfoldable pub choose_shorter : ℕ → Option (List ℕ) → List ℕ → Option (List ℕ)
unfolding with_length encode_plain
choose_shorter size none s = encode_plain size s
choose_shorter size (some coded) s =
    if ltb (length coded) (length s)
    then with_length size (encode_integer size (length coded) 0x7f 0x80) coded
    else encode_plain size s

unfoldable pub encode_string : ℕ → List ℕ → Option (List ℕ)
unfolding choose_shorter
encode_string size s = choose_shorter size (huffman_encode (length s) s) s
