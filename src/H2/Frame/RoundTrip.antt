-- ===== src/H2/Frame/RoundTrip.antt =====
-- The frame headers that BuildHttp2Frame writes, read as Http2StreamProto reads them.
use http2serv.Prelude.{ℕ, ◌+◌, ◌-◌, ◌*◌, ◌/◌, ◌%◌, ◌^◌, ◌<◌, ◌≡◌, refl, arith, bit_and, false}
use http2serv.Prelude.{List, ◌∷◌, ◌++◌, some, all_below, agree→eq, ap, ◌∙◌}
use http2serv.H2.Frame.{build_http2_frame, read_frame_header, word_value}

-- The mask clears bit 3 of a byte.
mask_byte : (b : ℕ) → b < 256 → bit_and b 0xf7 ≡ b - b / 8 % 2 * 8
unfolding all_below
mask_byte = agree→eq (λ b. bit_and b 0xf7) (λ b. b - b / 8 % 2 * 8) 256 refl

id_bytes :
    (id : ℕ)
    → id < 2 ^ 31
    → word_value
        (id / 2 ^ 24 % 256 - id / 2 ^ 24 % 256 / 8 % 2 * 8)
        (id / 2 ^ 16 % 256)
        (id / 2 ^ 8 % 256)
        (id % 256)
      ≡ id - id / 2 ^ 27 % 2 * 2 ^ 27
unfolding word_value
id_bytes id h = omega arith

read_back :
    (len typ flag w x y z l v : ℕ) (rest : List ℕ)
    → len / 2 ^ 16 % 256 * 2 ^ 16 + len / 2 ^ 8 % 256 * 2 ^ 8 + len % 256 ≡ l
    → word_value w x y z ≡ v
    → v < 2 ^ 31
    → read_frame_header (
        (len / 2 ^ 16 % 256)
        ∷ (len / 2 ^ 8 % 256)
        ∷ (len % 256)
        ∷ typ
        ∷ flag
        ∷ w
        ∷ x
        ∷ y
        ∷ z
        ∷ rest)
      ≡ some (record { size = l; typ = typ; flag = flag; stream_id = v; r = false })
unfolding read_frame_header
read_back len typ flag w x y z l v rest hl hv h = ground (arith, hl, hv, h)

-- A frame header is read as it was written, for a length of 24 bits and a stream id of 31 bits, but
-- that bit 27 of the stream id is lost.
pub read_frame_header-build_http2_frame :
    (len typ flag id : ℕ) (rest : List ℕ)
    → len < 2 ^ 24
    → id < 2 ^ 31
    → read_frame_header (build_http2_frame len typ flag id ++ rest)
      ≡ some (record {
        size = len;
        typ = typ;
        flag = flag;
        stream_id = id - id / 2 ^ 27 % 2 * 2 ^ 27;
        r = false;
      })
unfolding build_http2_frame
read_frame_header-build_http2_frame len typ flag id rest hl hi =
    read_back len typ flag _ _ _ _ len _ rest (omega (arith, hl))
      (ap (λ b. word_value b (id / 2 ^ 16 % 256) (id / 2 ^ 8 % 256) (id % 256))
          (mask_byte (id / 2 ^ 24 % 256) (omega arith))
        ∙ id_bytes id hi)
      (omega (arith, hi))
