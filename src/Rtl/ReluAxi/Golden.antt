-- ===== src/Rtl/ReluAxi/Golden.antt =====
-- A tile through rtl/relu_axi.sv against the golden model, and the registers read behind it.
use zynq_rtl_flow.Base.{
  ℕ, suc, ◌%◌, ◌^◌, ◌<◌, List, [], ◌∷◌, ◌++◌, map, length, All, Bool, true, false, ◌≡◌, refl, sym,
  ap, ◌∙◌, arith, replicate, ◌-◌,
}
use zynq_rtl_flow.Base.Int.{ℤ}
use zynq_rtl_flow.Words.{low_bits, signed, IsSigned}
use zynq_rtl_flow.Golden.Relu.{golden}
use zynq_rtl_flow.Rtl.ReluUnit.{relu_unit}
use zynq_rtl_flow.Rtl.ReluUnit.Golden.{map-relu_unit}
use zynq_rtl_flow.Rtl.ReluAxi.{ReluPorts, ReluAxi, relu_edge, relu_mux, in_fire, tile_done}
use zynq_rtl_flow.Rtl.ReluAxi.Stream.{OutBeat, InBeat, Flow, activate, handed}
use zynq_rtl_flow.Rtl.ReluAxi.Accounting.{NoLast, AtRest}
use zynq_rtl_flow.Rtl.ReluAxi.Tile.{tile_lem}

-- The beats of a tile under a slope: TLAST is on the final one.
unfoldable pub frame : ℕ → List ℤ → List InBeat
frame slope [] = []
frame slope (x ∷ []) = record { bits = low_bits 8 x; slope = slope; last = true } ∷ []
frame slope (x ∷ y ∷ tile) =
    record { bits = low_bits 8 x; slope = slope; last = false } ∷ frame slope (y ∷ tile)

-- TLAST over a tile of so many beats
unfoldable pub last_flags : ℕ → List Bool
last_flags n = replicate (n - 1) false ++ true ∷ []

frame-bytes :
    (slope : ℕ) (tile : List ℤ)
    → map (λ b. signed 8 (activate b).0) (frame slope tile)
      ≡ map (λ x. signed 8 (relu_unit (low_bits 8 x) slope)) tile
unfolding frame
frame-bytes slope [] = refl
frame-bytes slope (x ∷ []) = refl
frame-bytes slope (x ∷ y ∷ tile) =
    ap (◌∷◌ (signed 8 (relu_unit (low_bits 8 x) slope))) (frame-bytes slope (y ∷ tile))

less_one : (n : ℕ) → suc n - 1 ≡ n
less_one n = omega arith

flags-suc : (n : ℕ) → last_flags (suc (suc n)) ≡ false ∷ last_flags (suc n)
unfolding last_flags
flags-suc n =
    ap (λ k. replicate k false ++ true ∷ []) (less_one (suc n))
    ∙ ap (λ k. false ∷ (replicate k false ++ true ∷ [])) (sym (less_one n))

pub frame-flags :
    (slope : ℕ) (x : ℤ) (tile : List ℤ)
    → map (λ b. (activate b).1) (frame slope (x ∷ tile)) ≡ last_flags (suc (length tile))
unfolding frame last_flags
frame-flags slope x [] = refl
frame-flags slope x (y ∷ tile) =
    ap (◌∷◌ false) (frame-flags slope y tile) ∙ sym (flags-suc (length tile))

length-frame : (slope : ℕ) (tile : List ℤ) → length (frame slope tile) ≡ length tile
unfolding frame
length-frame slope [] = refl
length-frame slope (x ∷ []) = refl
length-frame slope (x ∷ y ∷ tile) = ap suc (length-frame slope (y ∷ tile))

pub map-compose :
    {A B C : Type 0} (f : B → C) (g : A → B) (xs : List A)
    → map f (map g xs) ≡ map (λ x. f (g x)) xs
map-compose f g [] = refl
map-compose f g (x ∷ xs) = ap (◌∷◌ (f (g x))) (map-compose f g xs)

-- the ports with the address of a read
abbrev pub reading : ℕ → ReluPorts → ReluPorts
reading addr q = record q { lite = record q.lite { araddr = addr } }

read_count : (q : ReluPorts) (w : ReluAxi) → relu_mux (reading 16 q) w ≡ w.account.count_q
unfolding relu_mux
read_count q w = refl

read_status :
    (q : ReluPorts) (w : ReluAxi)
    → w.account.busy_q ≡ false
    → w.account.done_q ≡ true
    → relu_mux (reading 8 q) w ≡ 2
unfolding relu_mux
read_status q w b d = ground arith

-- A tile of at least one signed byte, taken from rest under one slope and with any stalls, leaves as
-- the golden tile, read as signed bytes, with TLAST on its final beat and on no other; in the cycle
-- behind it COUNT reads as its length modulo 65536 and STATUS as DONE without BUSY, provided that no
-- beat of a next tile is taken while the final one leaves.
pub tile-golden_relu :
    (p q : ReluPorts) (w v : ReluAxi) (slope : ℕ) (x : ℤ) (rest : List ℤ) (outs : List OutBeat)
    → All (IsSigned 8) (x ∷ rest)
    → slope < 256
    → AtRest w
    → Flow w (frame slope (x ∷ rest)) outs v
    → NoLast outs
    → p.aresetn ≡ true
    → tile_done p v ≡ true
    → in_fire p v ≡ false
    → (map (λ b. signed 8 b.0) (outs ++ handed p v) ≡ golden (x ∷ rest) slope)
      × (map (λ b. b.1) (outs ++ handed p v) ≡ last_flags (length (x ∷ rest)))
      × (relu_mux (reading 16 q) (relu_edge p v) ≡ length (x ∷ rest) % 2 ^ 16)
      × (relu_mux (reading 8 q) (relu_edge p v) ≡ 2)
tile-golden_relu p q w v slope x rest outs bytes s idle flow none r d i =
    let tile = x ∷ rest in
    let (same, still, done, count) = tile_lem p w v (frame slope tile) outs idle flow none r d i in
    (
      ap (map (λ b. signed 8 b.0)) same
          ∙ (map-compose (λ b. signed 8 b.0) activate (frame slope tile)
              ∙ (frame-bytes slope tile ∙ map-relu_unit tile slope bytes s)),
      ap (map (λ b. b.1)) same
          ∙ (map-compose (λ b. b.1) activate (frame slope tile) ∙ frame-flags slope x rest),
      read_count q (relu_edge p v) ∙ (count ∙ ap (λ n. n % 2 ^ 16) (length-frame slope tile)),
      read_status q (relu_edge p v) still.not_busy done,
    )
