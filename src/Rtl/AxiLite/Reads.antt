-- ===== src/Rtl/AxiLite/Reads.antt =====
-- The read channel of the AXI4-Lite slave that rtl/sparse_cnn_axi.sv and rtl/relu_axi.sv share, over
-- any number of edges: each address is answered, once and in order.
use zynq_rtl_flow.Base.{
  ℕ, List, [], ◌++◌, append-nil, when, Bool, true, false, ◌&&◌, not, ◌≡◌, refl, if◌then◌else◌,
}
use zynq_rtl_flow.Rtl.AxiLite.{LiteMaster, ReadChannel, arready, next_read}
use zynq_rtl_flow.Rtl.AxiLite.Writes.{queue-step}

-- Edges out of reset, each with the word that the address selects in its cycle: the words of the
-- addresses accepted, and the words returned, both in order.
pub data ReadFlow : ReadChannel → List ℕ → List ℕ → ReadChannel → Type 0 where
  at_rest : (c : ReadChannel) → ReadFlow c [] [] c
  edge :
      (m : LiteMaster) (word : ℕ) (c d : ReadChannel) (asked returned : List ℕ)
      → ReadFlow (next_read m word c) asked returned d
      → ReadFlow c
          (when (m.arvalid && arready c) word ++ asked)
          (when (c.rvalid_q && m.rready) c.rdata_q ++ returned)
          d

-- the word that waits for the master
abbrev pub waiting_word : ReadChannel → List ℕ
waiting_word c = when c.rvalid_q c.rdata_q

place-edge :
    (valid asks takes : Bool) (held word : ℕ)
    → when valid held ++ when (asks && not valid) word
      ≡ when (valid && takes) held
        ++ when
            (if asks && not valid then true else if valid && takes then false else valid)
            (if asks && not valid then word else held)
place-edge true true true held word = refl
place-edge true true false held word = refl
place-edge true false true held word = refl
place-edge true false false held word = refl
place-edge false true true held word = refl
place-edge false true false held word = refl
place-edge false false true held word = refl
place-edge false false false held word = refl

-- Over any edges out of reset, whatever stalls the master chooses, each address is answered with the
-- word that it selected in the cycle in which it was accepted, in order, but for one that waits.
pub ReadFlow-in_order :
    {c d : ReadChannel} {asked returned : List ℕ}
    → ReadFlow c asked returned d
    → waiting_word c ++ asked ≡ returned ++ waiting_word d
unfolding next_read
ReadFlow-in_order (at_rest c) = append-nil (waiting_word c)
ReadFlow-in_order (edge m word c d asked returned rest) =
    queue-step (waiting_word c) (waiting_word (next_read m word c))
      (when (m.arvalid && arready c) word) (when (c.rvalid_q && m.rready) c.rdata_q) asked returned
      (waiting_word d) (place-edge c.rvalid_q m.arvalid m.rready c.rdata_q word)
      (ReadFlow-in_order rest)
