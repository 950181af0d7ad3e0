-- ===== src/Rtl/AxiLite/Writes.antt =====
-- The write channel of the AXI4-Lite slave that rtl/sparse_cnn_axi.sv and rtl/relu_axi.sv share, over
-- any number of edges: each address meets its data, once, and each write is answered, once.
use mathlib.Core.Path.{ap₂}
use zynq_rtl_flow.Base.{
  ℕ, ◌+◌, List, [], ◌++◌, map, append_assoc, append-nil, length, when, Bool, true, false, ◌&&◌,
  ◌||◌, not, ◌≡◌, refl, sym, ap, ◌∙◌, arith, if◌then◌else◌,
}
use zynq_rtl_flow.Rtl.AxiLite.{
  LiteMaster, WriteChannel, aw_fire, w_fire, wr_commit, wr_addr, wr_data, wr_strb, next_write,
  reset_write,
}

-- data with its strobes
abbrev pub Payload : Type 0
Payload = ℕ × ℕ

-- what a master hands over in a cycle, what the slave commits, and what it is thanked for
abbrev pub addressed : LiteMaster → WriteChannel → List ℕ
addressed m c = when (aw_fire m c) m.awaddr

abbrev pub supplied : LiteMaster → WriteChannel → List Payload
supplied m c = when (w_fire m c) (m.wdata, m.wstrb)

abbrev pub committed : LiteMaster → WriteChannel → List (ℕ × Payload)
committed m c = when (wr_commit m c) (wr_addr m c, (wr_data m c, wr_strb m c))

abbrev pub bit_of : Bool → ℕ
bit_of b = if b then 1 else 0

-- Edges out of reset, with the addresses and the data accepted, the writes committed, all in order,
-- and the number of responses taken.
pub data WriteFlow
    : WriteChannel → List ℕ → List Payload → List (ℕ × Payload) → ℕ → WriteChannel → Type 0 where
  at_rest : (c : WriteChannel) → WriteFlow c [] [] [] 0 c
  edge :
      (m : LiteMaster) (c d : WriteChannel) (addrs : List ℕ) (datas : List Payload)
      (commits : List (ℕ × Payload)) (responses : ℕ)
      → WriteFlow (next_write m c) addrs datas commits responses d
      → WriteFlow c
          (addressed m c ++ addrs)
          (supplied m c ++ datas)
          (committed m c ++ commits)
          (bit_of (c.bvalid_q && m.bready) + responses)
          d

-- No complete write waits, and none begins while a response does.
pub record IsOrderly (c : WriteChannel) : Type 0 where
  pub incomplete : c.aw_pend && c.w_pend ≡ false
  pub no_aw : c.bvalid_q && c.aw_pend ≡ false
  pub no_w : c.bvalid_q && c.w_pend ≡ false

pub reset_write-IsOrderly : (c : WriteChannel) → IsOrderly (reset_write c)
unfolding reset_write
reset_write-IsOrderly c = record { incomplete = refl; no_aw = refl; no_w = refl }

next_write-IsOrderly :
    (m : LiteMaster) (c : WriteChannel) → IsOrderly c → IsOrderly (next_write m c)
unfolding next_write
next_write-IsOrderly m c h = record {
  incomplete = ground arith;
  no_aw = ground arith;
  no_w = ground arith;
}

-- the halves of a write that wait for the other
abbrev pub waiting_addr : WriteChannel → List ℕ
waiting_addr c = when c.aw_pend c.aw_addr_q

abbrev pub waiting_data : WriteChannel → List Payload
waiting_data c = when c.w_pend (c.w_data_q, c.w_strb_q)

-- a register of one place, which is filled or empties at a commit
slot-edge :
    {A : Type 0} (pend fire commit : Bool) (held offered : A)
    → pend && fire ≡ false
    → commit && not (pend || fire) ≡ false
    → when pend held ++ when fire offered
      ≡ when commit (if pend then held else offered)
        ++ when (not commit && (fire || pend)) (if fire then offered else held)
slot-edge true true commit held offered p q = absurd (cc)
slot-edge true false true held offered p q = refl
slot-edge true false false held offered p q = refl
slot-edge false true true held offered p q = refl
slot-edge false true false held offered p q = refl
slot-edge false false true held offered p q = absurd (cc)
slot-edge false false false held offered p q = refl

-- one step of a queue, in front of the others
pub queue-step :
    {A : Type 0} (front back ins outs rest_ins rest_outs last : List A)
    → front ++ ins ≡ outs ++ back
    → back ++ rest_ins ≡ rest_outs ++ last
    → front ++ (ins ++ rest_ins) ≡ (outs ++ rest_outs) ++ last
queue-step front back ins outs rest_ins rest_outs last p q =
    sym (append_assoc front ins rest_ins)
    ∙ (ap (λ x. x ++ rest_ins) p
        ∙ (append_assoc outs back rest_ins
            ∙ (ap (λ x. outs ++ x) q ∙ sym (append_assoc outs rest_outs last))))

both-halves :
    (b : Bool) (a : ℕ) (p : Payload) (commits : List (ℕ × Payload))
    → (map (λ x. x.0) (when b (a, p) ++ commits) ≡ when b a ++ map (λ x. x.0) commits)
      × (map (λ x. x.1) (when b (a, p) ++ commits) ≡ when b p ++ map (λ x. x.1) commits)
both-halves true a p commits = (refl, refl)
both-halves false a p commits = (refl, refl)

length-when :
    {A : Type 0} (b : Bool) (x : A) (xs : List A) → length (when b x ++ xs) ≡ bit_of b + length xs
length-when true x xs = omega arith
length-when false x xs = omega arith

edge-addr :
    (m : LiteMaster) (c : WriteChannel)
    → IsOrderly c
    → waiting_addr c ++ addressed m c
      ≡ when (wr_commit m c) (wr_addr m c) ++ waiting_addr (next_write m c)
unfolding next_write
edge-addr m c h =
    slot-edge c.aw_pend (aw_fire m c) (wr_commit m c) c.aw_addr_q m.awaddr (ground arith)
      (ground arith)

pair_if :
    (b : Bool) (x y : Payload)
    → (if b then x else y) ≡ (if b then x.0 else y.0, if b then x.1 else y.1)
pair_if true x y = refl
pair_if false x y = refl

edge-data :
    (m : LiteMaster) (c : WriteChannel)
    → IsOrderly c
    → waiting_data c ++ supplied m c
      ≡ when (wr_commit m c) (wr_data m c, wr_strb m c) ++ waiting_data (next_write m c)
unfolding next_write
edge-data m c h =
    slot-edge c.w_pend (w_fire m c) (wr_commit m c) (c.w_data_q, c.w_strb_q) (m.wdata, m.wstrb)
      (ground arith) (ground arith)
    ∙ ap₂ (λ x y. when (wr_commit m c) x ++ when (next_write m c).w_pend y)
        (pair_if c.w_pend (c.w_data_q, c.w_strb_q) (m.wdata, m.wstrb))
        (pair_if (w_fire m c) (m.wdata, m.wstrb) (c.w_data_q, c.w_strb_q))

edge-response :
    (m : LiteMaster) (c : WriteChannel)
    → IsOrderly c
    → bit_of c.bvalid_q + bit_of (wr_commit m c)
      ≡ bit_of (c.bvalid_q && m.bready) + bit_of (next_write m c).bvalid_q
unfolding next_write
edge-response m c h = ground arith

-- Over any edges out of reset, from a channel as reset leaves it or as edges behind one do, whatever
-- order and stalls the master chooses: the writes committed are the addresses and the data accepted,
-- each in order, the first address with the first data and so on, but for a half that still waits; and
-- as many responses are taken as writes were committed, but for one that is still pending.
pub WriteFlow-in_order :
    {c d : WriteChannel} {addrs : List ℕ} {datas : List Payload} {commits : List (ℕ × Payload)}
    {responses : ℕ}
    → IsOrderly c
    → WriteFlow c addrs datas commits responses d
    → IsOrderly d
      × (waiting_addr c ++ addrs ≡ map (λ x. x.0) commits ++ waiting_addr d)
      × (waiting_data c ++ datas ≡ map (λ x. x.1) commits ++ waiting_data d)
      × (bit_of c.bvalid_q + length commits ≡ responses + bit_of d.bvalid_q)
WriteFlow-in_order h (at_rest c) =
    (h, append-nil (waiting_addr c), append-nil (waiting_data c), omega arith)
WriteFlow-in_order h (edge m c d addrs datas commits responses rest) =
    let (last, in_addr, in_data, answered) = WriteFlow-in_order (next_write-IsOrderly m c h) rest in
    let b = wr_commit m c in
    let payload : Payload = (wr_data m c, wr_strb m c) in
    let (firsts, seconds) = both-halves b (wr_addr m c) payload commits in
    let next = next_write m c in
    (
      last,
      queue-step (waiting_addr c) (waiting_addr next) (addressed m c) (when b (wr_addr m c)) addrs
            (map (λ x. x.0) commits) (waiting_addr d) (edge-addr m c h) in_addr
          ∙ ap (λ x. x ++ waiting_addr d) (sym firsts),
      queue-step (waiting_data c) (waiting_data next) (supplied m c) (when b payload) datas
            (map (λ x. x.1) commits) (waiting_data d) (edge-data m c h) in_data
          ∙ ap (λ x. x ++ waiting_data d) (sym seconds),
      omega (arith, length-when b (wr_addr m c, payload) commits, edge-response m c h, answered),
    )
