-- ===== src/Bench/ReluSeam/Bytes.antt =====
-- The register words of tb/relu_axi/tb_relu_axi.py as bytes, and back.
use zynq_rtl_flow.Base.{
  ℕ, ◌^◌, ◌<◌, ◌≡◌, ap, ◌∙◌, arith, ok, err, overflow_error, if◌then◌else◌, lt→ltb,
}
use zynq_rtl_flow.Effects.{◌>>=◌, lift, return}
use zynq_rtl_flow.Effects.Laws.{bind-ok}
use zynq_rtl_flow.Bench.ReluSeam.{Masters, from_bytes, bytes_of, to_bytes, read, write}

to_bytes_fits : (value : ℕ) → value < 2 ^ 32 → to_bytes value ≡ ok (bytes_of 4 value)
unfolding to_bytes
to_bytes_fits value h =
    ap (λ b. if b then ok (bytes_of 4 value) else err overflow_error) (lt→ltb value (2 ^ 32) h)

from_bytes-bytes_of : (value : ℕ) → value < 2 ^ 32 → from_bytes (bytes_of 4 value) ≡ value
unfolding from_bytes bytes_of
from_bytes-bytes_of value h = omega arith

module _ (masters : Masters) where
  open masters use {State, axil_read, axil_write}

  -- A word of 32 bits that is written to an address is what a read of it returns, if the master
  -- stores the four bytes it is given and then returns those of that address.
  pub write-read :
      (addr value : ℕ) (s t u : State)
      → value < 2 ^ 32
      → axil_write addr (bytes_of 4 value) s ≡ (ok tt, t)
      → axil_read addr 4 t ≡ (ok (bytes_of 4 value), u)
      → (write masters addr value >>= λ _. read masters addr) s ≡ (ok value, u)
  unfolding write read
  write-read addr value s t u h stores returns =
      bind-ok (write masters addr value) (λ _. read masters addr) s t tt
        (bind-ok (lift (to_bytes value)) (λ bytes. axil_write addr bytes) s s (bytes_of 4 value)
            (ap (λ r. (r, s)) (to_bytes_fits value h))
          ∙ stores)
      ∙ (bind-ok (axil_read addr 4) (λ bytes. return (from_bytes bytes)) t u (bytes_of 4 value)
            returns
          ∙ ap (λ x. (ok x, u)) (from_bytes-bytes_of value h))
