-- ===== src/Simhash/Signed.antt =====
-- Postgres stores a hash as a signed 64-bit integer.
use news_crawl_intelligence.Prelude.{ℕ, ◌-◌, ◌/◌, ◌%◌, ◌^◌, ◌≡◌, arith}
use news_crawl_intelligence.Prelude.Int.{ℤ, pos, negsuc, ◌≤ℤ◌}
use news_crawl_intelligence.Simhash.{band, to_signed64, to_unsigned64}

-- A value that a `bigint` column can hold.
abbrev pub IsBigint : ℤ → Type 0
IsBigint z = (negsuc (2 ^ 63 - 1) ≤ℤ z) × (z ≤ℤ pos (2 ^ 63 - 1))

-- Every hash is stored in range, and comes back as it was, less what lies above its 64 bits.
pub to_unsigned64-to_signed64 :
    (value : ℕ)
    → IsBigint (to_signed64 value) × (to_unsigned64 (to_signed64 value) ≡ value % 2 ^ 64)
unfolding to_signed64 to_unsigned64
to_unsigned64-to_signed64 value = ground arith

-- Reading a stored 64-bit hash and storing it again changes nothing.
pub to_signed64-to_unsigned64 : (z : ℤ) → IsBigint z → to_signed64 (to_unsigned64 z) ≡ z
unfolding to_signed64 to_unsigned64
to_signed64-to_unsigned64 (pos n) h = ground arith
to_signed64-to_unsigned64 (negsuc n) h = ground arith

-- `(simhash >> (i * 16)) & 65535` in SQL: an arithmetic shift of the signed column, and its low bits.
unfoldable pub sql_band : ℕ → ℤ → ℕ
sql_band shift (pos n) = n / 2 ^ shift % 2 ^ 16
sql_band shift (negsuc n) = 2 ^ 16 - 1 - n / 2 ^ shift % 2 ^ 16

-- The index expression of a stored 64-bit hash is, for each of the four bands, the band of the
-- hash that it stands for.
pub sql_band-band :
    (z : ℤ)
    → IsBigint z
    → (sql_band 0 z ≡ band 0 (to_unsigned64 z))
      × (sql_band 16 z ≡ band 1 (to_unsigned64 z))
      × (sql_band 32 z ≡ band 2 (to_unsigned64 z))
      × (sql_band 48 z ≡ band 3 (to_unsigned64 z))
unfolding sql_band to_unsigned64
sql_band-band (pos n) h = omega arith
sql_band-band (negsuc n) h = omega arith
