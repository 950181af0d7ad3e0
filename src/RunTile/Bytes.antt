-- ===== src/RunTile/Bytes.antt =====
-- The bytes that driver/run-tile.py exchanges with a device.
pub mod RoundTrip
use zynq_rtl_flow.Base.{
  ℕ, zero, suc, ◌+◌, ◌*◌, ◌/◌, ◌%◌, ◌^◌, List, [], ◌∷◌, ◌++◌, map, Bool, not, ◌==◌, length, Result,
  ok, err, struct_error, value_error, if◌then◌else◌,
}
use zynq_rtl_flow.Base.Int.{ℤ, ◌==ℤ◌}
use zynq_rtl_flow.Words.{low_bits, signed}

-- `((int(a) & 0xFF) << 8) | (int(w) & 0xFF)`: the two bytes do not overlap
unfoldable pub beat : ℤ × ℤ → ℕ
beat (w, a) = low_bits 8 a * 2 ^ 8 + low_bits 8 w

-- `struct.pack("<H", value)`
unfoldable pub pack_half : ℕ → List ℕ
pack_half v = v % 256 ∷ v / 256 % 256 ∷ []

-- `b"".join(struct.pack("<H", ...) for w, a in ...)`
unfoldable pub pack_beats : List (ℤ × ℤ) → List ℕ
unfolding beat pack_half
pack_beats [] = []
pack_beats (p ∷ pairs) = pack_half (beat p) ++ pack_beats pairs

-- the number that little-endian bytes stand for
unfoldable pub little : List ℕ → ℕ
little [] = 0
little (b ∷ bytes) = b + 256 * little bytes

-- `struct.unpack("<iI", data)`
unfoldable pub unpack_results : List ℕ → Result (ℤ × ℕ)
unfolding little
unpack_results (a ∷ b ∷ c ∷ d ∷ e ∷ f ∷ g ∷ h ∷ []) =
    ok (signed 32 (little (a ∷ b ∷ c ∷ d ∷ [])), little (e ∷ f ∷ g ∷ h ∷ []))
unpack_results _ = err struct_error

-- `np.asarray(tile, dtype=np.int8).tobytes()`
unfoldable pub int8_bytes : List ℤ → List ℕ
int8_bytes = map (low_bits 8)

-- `np.frombuffer(data, dtype=np.int8).astype(np.int64)`
unfoldable pub from_int8_bytes : List ℕ → List ℤ
from_int8_bytes = map (signed 8)

unfoldable pub count_different : List ℤ → List ℤ → ℕ
count_different (x ∷ xs) (y ∷ ys) = (if x ==ℤ y then 0 else 1) + count_different xs ys
count_different _ _ = 0

-- one element compared with each of the other array
unfoldable pub count_other_than : ℤ → List ℤ → ℕ
count_other_than x [] = 0
count_other_than x (y ∷ ys) = (if x ==ℤ y then 0 else 1) + count_other_than x ys

-- an array of one element is compared with each; other shapes do not go together
unfoldable pub broadcast : List ℤ → List ℤ → Result ℕ
unfolding count_other_than
broadcast (x ∷ []) ys = ok (count_other_than x ys)
broadcast (x ∷ x' ∷ xs) (y ∷ []) = ok (count_other_than y (x ∷ x' ∷ xs))
broadcast [] (y ∷ []) = ok 0
broadcast _ _ = err value_error

-- `int(np.count_nonzero(got != want))`
unfoldable pub mismatches : List ℤ → List ℤ → Result ℕ
unfolding count_different broadcast
mismatches got want =
    if length got == length want then ok (count_different got want) else broadcast got want
