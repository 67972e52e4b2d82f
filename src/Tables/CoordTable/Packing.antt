-- ===== src/Tables/CoordTable/Packing.antt =====
-- A packed coordinate gives back its two numbers.
use osmdiffs.Base.{ℕ, ◌+◌, ◌*◌, ◌/◌, ◌%◌, ◌^◌, ◌<◌, ◌≡◌, arith}
use osmdiffs.Tables.CoordTable.{pack, unpack, i32_as_u64}

shifted : (x : ℕ) → x < 2 ^ 32 → i32_as_u64 x * 2 ^ 32 % 2 ^ 64 ≡ x * 2 ^ 32
shifted x h = ground arith

pub unpack-pack : (x y : ℕ) → x < 2 ^ 32 → y < 2 ^ 32 → unpack (pack (x, y)) ≡ (x, y)
unfolding pack unpack
unpack-pack x y hx hy = λ i. (high i, low i)
  where
    high : (i32_as_u64 x * 2 ^ 32 % 2 ^ 64 + y) / 2 ^ 32 % 2 ^ 32 ≡ x
    high = omega (arith, shifted x hx)

    low : (i32_as_u64 x * 2 ^ 32 % 2 ^ 64 + y) % 2 ^ 32 ≡ y
    low = omega (arith, shifted x hx)

pub pack_fits : (x y : ℕ) → x < 2 ^ 32 → y < 2 ^ 32 → pack (x, y) < 256 ^ 8
unfolding pack
pack_fits x y hx hy = omega (arith, shifted x hx)
