-- ===== src/WebSocket/Frames.antt =====
-- Frames as RFC 6455 writes them, to compare with, and the mask taken off again.
use http2serv.Prelude.{ℕ, suc, ◌+◌, ◌*◌, ◌%◌, ◌^◌, ◌<◌, ◌≡◌, refl, sym, ap, ◌∙◌, arith}
use http2serv.Prelude.{Bool, true, false, ltb, if◌then◌else◌}
use http2serv.Prelude.{
  List, [], ◌∷◌, ◌++◌, Option, none, some, length, get_elem?, All, IsByte, be_bytes, bit_xor,
  bit_xor-bit_xor,
}
use http2serv.WebSocket.{SocketParam, Event}
use http2serv.WebSocket.Receive.{key_byte, unmask_from}

pub record Key : Type 0 where
  pub k0 : ℕ
  pub k1 : ℕ
  pub k2 : ℕ
  pub k3 : ℕ

-- The payload under the key, which is used round and round.
unfoldable pub mask_with : ℕ → ℕ → ℕ → ℕ → List ℕ → List ℕ
mask_with p q r s [] = []
mask_with p q r s (x ∷ xs) = bit_xor x p ∷ mask_with q r s p xs

abbrev pub key_bytes : Key → List ℕ
key_bytes k = k.k0 ∷ k.k1 ∷ k.k2 ∷ k.k3 ∷ []

abbrev pub IsKey : Key → Type 0
IsKey k = IsByte k.k0 × IsByte k.k1 × IsByte k.k2 × IsByte k.k3

periodic : (key : List ℕ) (n : ℕ) → key_byte key (suc (suc (suc (suc n)))) ≡ key_byte key n
unfolding key_byte
periodic key n =
    let e : suc (suc (suc (suc n))) % 4 ≡ n % 4 = omega arith in
    ap (λ i. elim (get_elem? key i) [ none ↦ 0 | some k ↦ k ]) e

-- The bytes of the mask from `n` on.
pub record Turned (key : List ℕ) (n p q r s : ℕ) : Type 0 where
  pub here : p ≡ key_byte key n
  pub one_on : q ≡ key_byte key (suc n)
  pub two_on : r ≡ key_byte key (suc (suc n))
  pub three_on : s ≡ key_byte key (suc (suc (suc n)))

pub unmask_from-mask_with :
    (key : List ℕ) (n p q r s : ℕ) (xs : List ℕ)
    → Turned key n p q r s
    → IsByte p
    → IsByte q
    → IsByte r
    → IsByte s
    → All IsByte xs
    → unmask_from key n (mask_with p q r s xs) ≡ xs
unfolding unmask_from mask_with
unmask_from-mask_with key n p q r s [] t hp hq hr hs h = refl
unmask_from-mask_with key n p q r s (x ∷ xs) t hp hq hr hs h =
    rw
      (
        sym t.here,
        bit_xor-bit_xor p x hp h.0,
        unmask_from-mask_with key (suc n) q r s p xs
            (record {
              here = t.one_on;
              one_on = t.two_on;
              two_on = t.three_on;
              three_on = t.here ∙ sym (periodic key n);
            })
            hq hr hs hp h.1,
      )
      refl

pub length-mask_with : (p q r s : ℕ) (xs : List ℕ) → length (mask_with p q r s xs) ≡ length xs
unfolding mask_with
length-mask_with p q r s [] = refl
length-mask_with p q r s (x ∷ xs) = ap suc (length-mask_with q r s p xs)

-- The frames of this module: no control frames but the pong.
pub data Kind : Type 0 where
  continuation : Kind
  whole_text : Kind
  binary_data : Kind
  heard_pong : Kind

abbrev pub op_of : Kind → ℕ
op_of Kind.continuation = 0
op_of Kind.whole_text = 1
op_of Kind.binary_data = 2
op_of Kind.heard_pong = 10

pub record Frame : Type 0 where
  pub kind : Kind
  pub is_last : Bool
  pub key : Option Key
  pub payload : List ℕ

abbrev pub bit : Bool → ℕ
bit true = 1
bit false = 0

-- The seven bits of the length, and the longer forms of RFC 6455.
unfoldable pub short_length : ℕ → ℕ
short_length n = if ltb n 126 then n else if ltb n 65536 then 126 else 127

unfoldable pub long_length : ℕ → List ℕ
long_length n = if ltb n 126 then [] else if ltb n 65536 then be_bytes 2 n else be_bytes 8 n

abbrev pub masked_bit : Option Key → ℕ
masked_bit none = 0
masked_bit (some k) = 1

abbrev pub masked : Option Key → List ℕ → List ℕ
masked none payload = payload
masked (some k) payload = mask_with k.k0 k.k1 k.k2 k.k3 payload

abbrev pub option_bytes : Option Key → List ℕ
option_bytes none = []
option_bytes (some k) = key_bytes k

unfoldable pub frame_bytes : Frame → List ℕ
unfolding short_length long_length
frame_bytes f =
    (op_of f.kind + bit f.is_last * 128)
    ∷ (short_length (length f.payload) + masked_bit f.key * 128)
    ∷ (long_length (length f.payload) ++ (option_bytes f.key ++ masked f.key f.payload))

-- What the application is told of the frame.
unfoldable pub events_of : Frame → List Event
events_of f = elim f.kind [
  | Kind.continuation ↦ Event.binary f.payload f.is_last ∷ []
  | Kind.whole_text ↦ if f.is_last then Event.text f.payload ∷ [] else []
  | Kind.binary_data ↦ Event.binary f.payload f.is_last ∷ []
  | Kind.heard_pong ↦ Event.pong ∷ []
]

abbrev pub IsOptionKey : Option Key → Type 0
IsOptionKey none = Unit {0}
IsOptionKey (some k) = IsKey k

abbrev pub IsFrame : Frame → Type 0
IsFrame f = (length f.payload < 2 ^ 32) × All IsByte f.payload × IsOptionKey f.key

-- The state between two frames.
abbrev pub Ready : SocketParam → Type 0
Ready st = (st.len ≡ 0) × (st.received ≡ 0)
