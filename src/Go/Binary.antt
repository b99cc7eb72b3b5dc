-- ===== src/Go/Binary.antt =====
-- `binary.LittleEndian.PutUint64` and `Uint64`, on a list of bytes.
use qonto.Prelude.{
  ℕ, zero, suc, ◌+◌, ◌*◌, ◌/◌, ◌%◌, ◌^◌, ◌<◌, ◌≡◌, Bytes, [], ◌∷◌, length, All, IsByte, arith,
}

-- The `k` lowest bytes of `v`, lowest first.
unfoldable pub put_le : ℕ → ℕ → Bytes
put_le zero v = []
put_le (suc k) v = v % 256 ∷ put_le k (v / 256)

unfoldable pub get_le : Bytes → ℕ
get_le [] = 0
get_le (b ∷ bs) = b + 256 * get_le bs

pub get_le-put_le : (k v : ℕ) → v < 256 ^ k → get_le (put_le k v) ≡ v
unfolding get_le put_le
get_le-put_le zero v h = omega arith
get_le-put_le (suc k) v h = omega (arith, get_le-put_le k (v / 256) (shrink k v h))
  where
    shrink : (k v : ℕ) → v < 256 ^ suc k → v / 256 < 256 ^ k
    shrink k v h = grind arith

pub put_le-IsByte : (k v : ℕ) → All IsByte (put_le k v)
unfolding put_le
put_le-IsByte zero v = tt
put_le-IsByte (suc k) v = (omega arith, put_le-IsByte k (v / 256))

pub get_le-lt : (bs : Bytes) → All IsByte bs → get_le bs < 256 ^ length bs
unfolding get_le
get_le-lt [] h = omega arith
get_le-lt (b ∷ bs) h = grind (arith, get_le-lt bs h.1)
