-- ===== src/Rtl/ReluAxi/Accounting.antt =====
-- The tile accounting of rtl/relu_axi.sv: STATUS and COUNT over the beats of a tile.
use mathlib.Core.Path.{subst}
use zynq_rtl_flow.Base.{
  when, ℕ, ◌+◌, ◌%◌, ◌^◌, ◌==◌, List, ◌++◌, length, All, Bool, true, false, ◌&&◌, ◌||◌, not, ◌≡◌,
  refl, sym, ap, ◌∙◌, arith, if◌then◌else◌,
}
use zynq_rtl_flow.Rtl.ReluAxi.{
  ReluPorts, Account, ReluAxi, relu_edge, relu_run, relu_reset, in_fire, out_fire, tile_done,
  next_account,
}
use zynq_rtl_flow.Rtl.ReluAxi.Stream.{OutBeat, InBeat, Flow, at_rest, edge, front}

pub edge-account :
    (p : ReluPorts) (w : ReluAxi)
    → p.aresetn ≡ true
    → (relu_edge p w).account ≡ next_account (in_fire p w) (tile_done p w) w.account
unfolding relu_edge relu_run
edge-account p w r = ap (λ b. (if b then relu_run p w else relu_reset w).account) r

-- So many beats of the current tile were taken: BUSY is set from the first on, and DONE is low then.
pub record Counts (k : ℕ) (a : Account) : Type 0 where
  pub beats : a.beats_q ≡ k % 2 ^ 16
  pub busy : a.busy_q ≡ not (k == 0)
  pub done : (k == 0 || not a.done_q) ≡ true

abbrev pub one_if : Bool → ℕ
one_if b = if b then 1 else 0

account-Counts :
    (b : Bool) (k : ℕ) (a : Account) → Counts k a → Counts (k + one_if b) (next_account b false a)
unfolding next_account
account-Counts true k a h = record {
  beats = ground arith;
  busy = ground arith;
  done = ground arith;
}
account-Counts false k a h = record {
  beats = ground arith;
  busy = ground arith;
  done = ground arith;
}

-- none of the beats carries TLAST
abbrev pub NoLast : List OutBeat → Type 0
NoLast outs = All (λ b. b.1 ≡ false) outs

NoLast-when :
    (b : Bool) (x : OutBeat) (xs : List OutBeat)
    → NoLast (when b x ++ xs)
    → ((b && x.1) ≡ false) × NoLast xs
NoLast-when true x xs h = h
NoLast-when false x xs h = (refl, h)

length-when :
    {A : Type 0} (b : Bool) (x : A) (xs : List A) → length (when b x ++ xs) ≡ one_if b + length xs
length-when true x xs = omega arith
length-when false x xs = omega arith

counted :
    (k : ℕ) (b : Bool) (x : InBeat) (ins : List InBeat)
    → k + one_if b + length ins ≡ k + length (when b x ++ ins)
counted k b x ins = omega (arith, length-when b x ins)

edge-Counts :
    (p : ReluPorts) (w : ReluAxi)
    → p.aresetn ≡ true
    → tile_done p w ≡ false
    → (k : ℕ) → Counts k w.account
    → Counts (k + one_if (in_fire p w)) (relu_edge p w).account
edge-Counts p w r d k h =
    subst (Counts (k + one_if (in_fire p w)))
      (sym (edge-account p w r ∙ ap (λ x. next_account (in_fire p w) x w.account) d))
      (account-Counts (in_fire p w) k w.account h)

plus_zero : (k : ℕ) → k ≡ k + 0
plus_zero k = omega arith

-- While no last beat leaves, the accounting counts the beats that are taken.
pub Flow-Counts :
    {w v : ReluAxi} {ins : List InBeat} {outs : List OutBeat}
    → Flow w ins outs v
    → NoLast outs
    → (k : ℕ) → Counts k w.account
    → Counts (k + length ins) v.account
Flow-Counts (at_rest w) none k h = subst (λ n. Counts n w.account) (plus_zero k) h
Flow-Counts (edge p w v ins outs r rest) none k h =
    let (open_tile, none') = NoLast-when (out_fire p w) (front w.stage) outs none in
    subst (λ n. Counts n v.account) (counted k (in_fire p w) _ ins)
      (Flow-Counts rest none' (k + one_if (in_fire p w)) (edge-Counts p w r open_tile k h))

-- No beat inside and no tile begun.
pub record AtRest (w : ReluAxi) : Type 0 where
  pub free : w.stage.out_valid_q ≡ false
  pub no_beats : w.account.beats_q ≡ 0
  pub not_busy : w.account.busy_q ≡ false

-- Reset leaves the pipeline at rest.
pub reset-AtRest : (p : ReluPorts) (w : ReluAxi) → p.aresetn ≡ false → AtRest (relu_edge p w)
unfolding relu_edge
reset-AtRest p w r = record {
  free = ground arith;
  no_beats = ground arith;
  not_busy = ground arith;
}

AtRest-Counts : (w : ReluAxi) → AtRest w → Counts 0 w.account
AtRest-Counts w h = record { beats = h.no_beats; busy = h.not_busy; done = refl }

zero_plus : (k : ℕ) → 0 + k ≡ k
zero_plus k = omega arith

-- From rest and until the last beat leaves, the beat counter is the number of beats taken modulo
-- 65536, BUSY is set exactly if one was taken, and DONE is low from the first one on.
pub rest-Counts :
    {w v : ReluAxi} {ins : List InBeat} {outs : List OutBeat}
    → AtRest w
    → Flow w ins outs v
    → NoLast outs
    → Counts (length ins) v.account
rest-Counts {w} {v} {ins} h flow none =
    subst (λ n. Counts n v.account) (zero_plus (length ins))
      (Flow-Counts flow none 0 (AtRest-Counts w h))

-- The edge that hands the last beat over.
pub done-account :
    (p : ReluPorts) (v : ReluAxi) (k : ℕ)
    → p.aresetn ≡ true
    → tile_done p v ≡ true
    → Counts k v.account
    → let a = (relu_edge p v).account in
      (a.busy_q ≡ false)
      × (a.done_q ≡ true)
      × (a.beats_q ≡ 0)
      × (a.count_q ≡ (k + one_if (in_fire p v)) % 2 ^ 16)
unfolding next_account
done-account p v k r d h =
    let same = edge-account p v r ∙ ap (λ x. next_account (in_fire p v) x v.account) d in
    (
      ap (λ a. a.busy_q) same,
      ap (λ a. a.done_q) same,
      ap (λ a. a.beats_q) same,
      ap (λ a. a.count_q) same ∙ last_count (in_fire p v),
    )
  where
    last_count :
        (b : Bool)
        → (if b then (v.account.beats_q + 1) % 2 ^ 16 else v.account.beats_q)
          ≡ (k + one_if b) % 2 ^ 16
    last_count true = omega (arith, h.beats)
    last_count false = omega (arith, h.beats)
