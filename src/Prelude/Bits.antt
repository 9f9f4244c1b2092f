-- ===== src/Prelude/Bits.antt =====
-- Exclusive or of bytes, and numbers as bytes, the highest first.
use Prim.Native.Nat.{ℕ, zero, suc, ◌+◌, ◌*◌, ◌/◌, ◌%◌, ◌^◌, ◌<◌, bit_xor}
use mathlib.Core.Path.{◌≡◌, refl}
use mathlib.Core.List.{List, [], ◌∷◌, ◌++◌}
use native.Mathlib.Omega.{arith}
use native.Mathlib.Nat.{pow-suc}
use http2serv.Prelude.Tests.{◌==◌, ==_iff}
use http2serv.Prelude.Lists.{length, length-append}
use http2serv.Prelude.Bytes.{all_below, all_below_each}

-- Both tables in one, by evaluation.
pub bit_xor-bit_xor : (key b : ℕ) → key < 256 → b < 256 → bit_xor (bit_xor b key) key ≡ b
unfolding all_below
bit_xor-bit_xor key b hk hb = (==_iff _ _).0 (
    all_below_each 256 (λ b. bit_xor (bit_xor b key) key == b) b
      (all_below_each 256 (λ key. all_below 256 (λ b. bit_xor (bit_xor b key) key == b)) key refl
        hk)
      hb)

unfoldable pub be_from : ℕ → List ℕ → ℕ
be_from high [] = high
be_from high (b ∷ bs) = be_from (high * 256 + b) bs

unfoldable pub be_value : List ℕ → ℕ
unfolding be_from
be_value = be_from 0

unfoldable pub be_bytes : ℕ → ℕ → List ℕ
be_bytes zero v = []
be_bytes (suc n) v = be_bytes n (v / 256) ++ (v % 256 ∷ [])

be_from-append :
    (high : ℕ) (bs : List ℕ) (b : ℕ) → be_from high (bs ++ (b ∷ [])) ≡ be_from high bs * 256 + b
unfolding be_from
be_from-append high [] b = refl
be_from-append high (c ∷ bs) b = be_from-append (high * 256 + c) bs b

pub be_value-be_bytes : (n v : ℕ) → v < 256 ^ n → be_value (be_bytes n v) ≡ v
unfolding be_value be_from be_bytes
be_value-be_bytes zero v h = omega (arith, h)
be_value-be_bytes (suc n) v h = omega (
  arith,
  be_from-append 0 (be_bytes n (v / 256)) (v % 256),
  be_value-be_bytes n (v / 256) (omega (arith, h, pow-suc 256 n)),
)

pub length-be_bytes : (n v : ℕ) → length (be_bytes n v) ≡ n
unfolding be_bytes
length-be_bytes zero v = refl
length-be_bytes (suc n) v =
    omega (arith, length-append (be_bytes n (v / 256)) (v % 256 ∷ []), length-be_bytes n (v / 256))
