-- ===== src/Hpack/Integer/Bounds.antt =====
-- What EncodeInteger writes, in plain arithmetic, and for which buffer sizes.
use http2serv.Prelude.{ℕ, zero, suc, ◌+◌, ◌-◌, ◌/◌, ◌%◌, ◌≤◌, ◌<◌, ◌^◌, ◌≡◌, bit_or, arith}
use http2serv.Prelude.{List, [], ◌∷◌, none, some, ltb, leb, if◌then◌else◌, length, set_top_bit}
use http2serv.Prelude.{IsByte, All}
use native.Mathlib.Nat.{pow-suc}
use http2serv.Hpack.Integer.{encode_groups, encode_integer}

-- The groups of seven bits of `n`, lowest first, the top bit set on all but the last.
unfoldable pub groups : ℕ → ℕ → List ℕ
groups zero n = n % 256 ∷ []
groups (suc fuel) n =
    let rest = groups fuel (n / 128) in if ltb 127 n then (n % 128 + 128) ∷ rest else n % 256 ∷ []

encode_groups-groups :
    (fuel size ret n : ℕ)
    → encode_groups fuel size ret n
      ≡ (if leb (ret + length (groups fuel n)) size then some (groups fuel n) else none)
unfolding encode_groups groups
encode_groups-groups zero size ret n = ground arith
encode_groups-groups (suc fuel) size ret n =
    ground (
      arith,
      encode_groups-groups fuel size (ret + 1) (n / 128),
      set_top_bit (n % 128) (omega arith),
    )

-- The bytes of a number behind a prefix of the mask `mask`.
unfoldable pub integer_bytes : ℕ → ℕ → ℕ → List ℕ
integer_bytes n mask rep =
    if ltb n mask then bit_or n rep % 256 ∷ [] else bit_or mask rep ∷ groups (n - mask) (n - mask)

-- EncodeInteger writes the bytes of integer_bytes, the prefix and the groups of seven bits behind it,
-- if they fit the buffer, and returns SIZE_MAX exactly if they do not.
pub encode_integer_lem :
    (size n mask rep : ℕ)
    → encode_integer size n mask rep ≡ (
        if leb (length (integer_bytes n mask rep)) size
        then some (integer_bytes n mask rep)
        else none)
unfolding encode_integer integer_bytes
encode_integer_lem size n mask rep =
    ground (arith, encode_groups-groups (n - mask) size 1 (n - mask))

pub groups-IsByte : (fuel n : ℕ) → All IsByte (groups fuel n)
unfolding groups
groups-IsByte zero n = omega arith
groups-IsByte (suc fuel) n = ground (arith, groups-IsByte fuel (n / 128))

-- `k` groups behind the first hold a number below 128 ^ (k + 1).
pub length-groups_le : (k fuel n : ℕ) → n < 128 ^ suc k → length (groups fuel n) ≤ k + 1
unfolding groups
length-groups_le k zero n h = omega arith
length-groups_le zero (suc fuel) n h = ground arith
length-groups_le (suc k) (suc fuel) n h =
    ground (arith, length-groups_le k fuel (n / 128), pow-suc 128 (suc k))

-- A number below 2 ^ 31 takes six bytes at most, with its prefix.
pub length-integer_bytes_le : (n mask rep : ℕ) → n < 2 ^ 31 → length (integer_bytes n mask rep) ≤ 6
unfolding integer_bytes
length-integer_bytes_le n mask rep h =
    ground (arith, length-groups_le 4 (n - mask) (n - mask) (omega arith))
