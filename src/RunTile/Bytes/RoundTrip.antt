-- ===== src/RunTile/Bytes/RoundTrip.antt =====
-- What the bytes of driver/run-tile.py carry: the operands out, the results back.
use mathlib.Core.Path.{ap₂}
use zynq_rtl_flow.Base.{
  ℕ, ◌+◌, ◌*◌, ◌/◌, ◌%◌, ◌^◌, ◌<◌, List, [], ◌∷◌, ◌++◌, ok, ok-injective, err, struct_error, ◌≡◌,
  refl, ◌∙◌, ◌≢◌, ap, arith, All, length, ◌↔◌, ==_iff, sym,
}
use zynq_rtl_flow.Base.Int.{ℤ, ==ℤ_refl}
use zynq_rtl_flow.Words.{low_bits, signed, IsSigned}
use zynq_rtl_flow.Words.Laws
use zynq_rtl_flow.Golden.Draws.Range.{IsPair}
use zynq_rtl_flow.RunTile.Bytes.{
  beat, pack_half, pack_beats, little, unpack_results, int8_bytes, from_int8_bytes, count_different,
  mismatches,
}

-- How the accelerator reads its stream: two bytes a beat, the weight in bits 7:0 and the
-- activation in bits 15:8, both signed.
unfoldable pub operands_of : List ℕ → List (ℤ × ℤ)
operands_of (lo ∷ hi ∷ bytes) = (signed 8 lo, signed 8 hi) ∷ operands_of bytes
operands_of _ = []

beat_bytes :
    (w a : ℕ) → w < 256 → a < 256 → ((a * 2 ^ 8 + w) % 256 ≡ w) × ((a * 2 ^ 8 + w) / 256 % 256 ≡ a)
beat_bytes w a p q = omega arith

operands_of-beat :
    (w a : ℤ) (rest : List ℕ)
    → IsPair (w, a)
    → operands_of (pack_half (beat (w, a)) ++ rest) ≡ (w, a) ∷ operands_of rest
unfolding operands_of pack_half beat
operands_of-beat w a rest h =
    let (lo, hi) =
      beat_bytes (low_bits 8 w) (low_bits 8 a) (Laws.low_bits_lt 8 w) (Laws.low_bits_lt 8 a) in
    rw (lo, hi, Laws.signed-low_bits8 w h.0, Laws.signed-low_bits8 a h.1)

-- The accelerator's reading of the packed tile is the tile, for every tile of signed bytes.
pub operands_of-pack_beats :
    (pairs : List (ℤ × ℤ)) → All IsPair pairs → operands_of (pack_beats pairs) ≡ pairs
unfolding pack_beats
operands_of-pack_beats [] h = unfold operands_of in refl
operands_of-pack_beats ((w, a) ∷ pairs) h =
    operands_of-beat w a (pack_beats pairs) h.0 ∙ ap (◌∷◌ (w, a)) (operands_of-pack_beats pairs h.1)

-- The four bytes of a 32-bit word, the lowest first.
unfoldable pub word_bytes : ℕ → List ℕ
word_bytes n = n % 256 ∷ n / 256 % 256 ∷ n / 65536 % 256 ∷ n / 16777216 % 256 ∷ []

little-word_bytes : (n : ℕ) → n < 2 ^ 32 → little (word_bytes n) ≡ n
unfolding little word_bytes
little-word_bytes n h = omega arith

-- The eight bytes that the driver hands back for a result.
unfoldable pub result_bytes : ℤ → ℕ → List ℕ
unfolding word_bytes
result_bytes acc skip = word_bytes (low_bits 32 acc) ++ word_bytes skip

-- The script reads a result's bytes as the result: a signed accumulator, then the skip count.
pub unpack-result_bytes :
    (acc : ℤ) (skip : ℕ)
    → IsSigned 32 acc
    → skip < 2 ^ 32
    → unpack_results (result_bytes acc skip) ≡ ok (acc, skip)
unfolding unpack_results result_bytes
unpack-result_bytes acc skip fits short = ap ok (
    ap₂ (λ x y. (x, y))
      (ap (signed 32) (unfold word_bytes in little-word_bytes _ (Laws.low_bits_lt 32 acc))
        ∙ Laws.signed-low_bits32 acc fits)
      (unfold word_bytes in little-word_bytes skip short))

-- Any other number of bytes than eight is refused.
pub unpack_results_size :
    (bytes : List ℕ) → length bytes ≢ 8 → unpack_results bytes ≡ err struct_error
unfolding unpack_results
unpack_results_size (a ∷ b ∷ c ∷ d ∷ e ∷ f ∷ g ∷ h ∷ []) k = absurd (k refl)
unpack_results_size _ k = refl

-- A tile of signed bytes comes back from its bytes.
pub from_int8_bytes-int8_bytes :
    (tile : List ℤ) → All (IsSigned 8) tile → from_int8_bytes (int8_bytes tile) ≡ tile
unfolding from_int8_bytes int8_bytes
from_int8_bytes-int8_bytes [] h = refl
from_int8_bytes-int8_bytes (x ∷ tile) h =
    ap₂ ◌∷◌ (Laws.signed-low_bits8 x h.0) (from_int8_bytes-int8_bytes tile h.1)

count_different_self : (xs : List ℤ) → count_different xs xs ≡ 0
unfolding count_different
count_different_self [] = refl
count_different_self (x ∷ xs) = rw (==ℤ_refl x) (omega (arith, count_different_self xs))

count_different-zero :
    (xs ys : List ℤ) → length xs ≡ length ys → count_different xs ys ≡ 0 → xs ≡ ys
unfolding count_different
count_different-zero [] [] _ _ = refl
count_different-zero [] (y ∷ ys) e h = absurd (omega arith)
count_different-zero (x ∷ xs) [] e h = absurd (omega arith)
count_different-zero (x ∷ xs) (y ∷ ys) e h =
    ap₂ ◌∷◌ (ground arith) (count_different-zero xs ys (omega arith) (omega arith))

mismatches-eq :
    (got want : List ℤ)
    → length got ≡ length want
    → mismatches got want ≡ ok (count_different got want)
unfolding mismatches
mismatches-eq got want e = rw ((==_iff (length got) (length want)).1 e)

-- Arrays of one length mismatch in no element exactly when they are equal.
pub mismatches-zero_iff :
    (got want : List ℤ) → length got ≡ length want → (mismatches got want ≡ ok 0) ↔ (got ≡ want)
mismatches-zero_iff got want e = (
  λ h. count_different-zero got want e (ok-injective (sym (mismatches-eq got want e) ∙ h)),
  λ same. mismatches-eq got want e ∙ ap ok (rw same (count_different_self want)),
)
