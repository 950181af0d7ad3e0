-- ===== src/RunTile/Runners/Matches.antt =====
-- What it means that every tile of a runner of driver/run-tile.py matched, and that a runner which
-- counts as many matches as tiles went through just that.
use mathlib.Core.Path.{subst, ap₂}
use zynq_rtl_flow.Base.{
  ℕ, ◌+◌, ◌≤◌, ◌==◌, ==_iff, List, [], ◌∷◌, ◌++◌, Bool, true, false, ◌&&◌, Bool-cases, inl, inr,
  ◌≡◌, refl, sym, ap, ◌∙◌, arith, Result, ok, ok-injective, length,
}
use zynq_rtl_flow.Base.Int.{ℤ, ◌==ℤ◌, ==ℤ_sound}
use zynq_rtl_flow.Str.{codes, decimal}
use zynq_rtl_flow.Golden.SparseMac
use zynq_rtl_flow.Golden.Relu
use zynq_rtl_flow.Golden.Rng.{Rng}
use zynq_rtl_flow.Golden.Draws.{gen_pairs, gen_activations}
use zynq_rtl_flow.Effects.{M, ◌>>=◌, return, lift}
use zynq_rtl_flow.Effects.Laws.{bind-eq-ok}
use zynq_rtl_flow.RunTile.Board.{Board}
use zynq_rtl_flow.RunTile.Bytes.{
  pack_beats, unpack_results, int8_bytes, from_int8_bytes, mismatches,
}
use zynq_rtl_flow.RunTile.Runners.{
  SparseTile, ReluTile, sparse_tiles, relu_tiles, plus_bool, sparse_round, sparse_rounds,
  run_sparse_cnn, relu_round, relu_rounds, run_relu,
}

-- what holds of each tile, one behind the other
abbrev pub InTurn : {S T : Type 0} → (T → S → S → Type 0) → List T → S → S → Type 0
InTurn Match [] s u = s ≡ u
InTurn {S} Match (t ∷ tiles) s u = (m : S) × Match t s m × InTurn Match tiles m u

-- Rounds that count the tiles that matched, from one state to another.
module _ {S T : Type 0} (round : T → M S Bool) (rounds : ℕ → List T → M S ℕ)
    (finish : (n : ℕ) → rounds n [] ≡ return n)
    (more : (n : ℕ) (t : T) (tiles : List T)
      → rounds n (t ∷ tiles) ≡ (round t >>= λ b. rounds (plus_bool n b) tiles)) where
  -- what a count says of the rounds
  abbrev Says : ℕ → List T → S → ℕ → S → Type 0
  Says n tiles s m u =
      (m ≤ n + length tiles)
      × (m ≡ n + length tiles → InTurn (λ t s u. round t s ≡ (ok true, u)) tiles s u)

  rounds-Says :
      (n : ℕ) (tiles : List T) (s u : S) (m : ℕ) → rounds n tiles s ≡ (ok m, u) → Says n tiles s m u
  rounds-Says n [] s u m h =
      let end : ◌≡◌ {A = Result ℕ × S} (ok n, s) (ok m, u) = sym (ap (λ f. f s) (finish n)) ∙ h in
      let same : n ≡ m = ok-injective (ap (λ x. x.0) end) in
      (omega (arith, same), λ _. ap (λ x. x.1) end)
  rounds-Says n (t ∷ tiles) s u m h =
      let (b, v, first, rest) =
        bind-eq-ok (round t) (λ b. rounds (plus_bool n b) tiles)
          (sym (ap (λ f. f s) (more n t tiles)) ∙ h) in
      counted b v first (rounds-Says (plus_bool n b) tiles v u m rest)
    where
      counted :
          (b : Bool) (v : S)
          → round t s ≡ (ok b, v)
          → Says (plus_bool n b) tiles v m u
          → Says n (t ∷ tiles) s m u
      counted true v first (few, all) =
          (omega (arith, few), λ e. (v, first, all (omega (arith, e))))
      counted false v first (few, all) = (omega (arith, few), λ e. absurd (omega (arith, few, e)))

same_results : (got want : ℤ × ℕ) → (got.0 ==ℤ want.0 && got.1 == want.1) ≡ true → got ≡ want
same_results (a, k) (b, n) h =
    ap₂ (λ x y. (x, y)) (==ℤ_sound a b (both a b k n h).0) ((==_iff k n).0 (both a b k n h).1)
  where
    both : (a b : ℤ) (k n : ℕ) → (a ==ℤ b && k == n) ≡ true → ((a ==ℤ b) ≡ true) × ((k == n) ≡ true)
    both a b k n h = elim (Bool-cases (a ==ℤ b)) [
      | inl e ↦ (e, sym (ap (λ x. x && k == n) e) ∙ h)
      | inr e ↦ absurd (cc (sym (ap (λ x. x && k == n) e) ∙ h))
    ]

module _ (board : Board) (rng : Rng) where
  open board use {State, write, read, write_slope}

  -- A tile of the sparse accelerator that was written, and whose results were read back golden.
  pub record SparseMatch (t : SparseTile) (s u : State) : Type 0 where
    pub sent : State
    pub answer : List ℕ
    pub writes :
        (let (weights, acts) = gen_pairs rng t.size t.sparsity t.seed in
          write (pack_beats (SparseMac.zip weights acts)) s)
        ≡ (ok tt, sent)
    pub reads : read 8 sent ≡ (ok answer, u)
    pub golden : unpack_results answer ≡ (
        let (weights, acts) = gen_pairs rng t.size t.sparsity t.seed in
        ok (SparseMac.golden weights acts))

  abbrev tile_of : ReluTile → List ℤ
  tile_of t = gen_activations rng t.size t.negative_ratio (rng.default_rng t.seed)

  -- A tile of the activation unit that was written behind its slope, and in whose answer no beat
  -- differed from the golden ones.
  pub record ReluMatch (t : ReluTile) (s u : State) : Type 0 where
    pub sloped : State
    pub sent : State
    pub answer : List ℕ
    pub slopes : write_slope (decimal t.slope ++ codes "\n") s ≡ (ok tt, sloped)
    pub writes : write (int8_bytes (tile_of t)) sloped ≡ (ok tt, sent)
    pub reads : read t.size sent ≡ (ok answer, u)
    pub no_mismatch : mismatches (from_int8_bytes answer) (Relu.golden (tile_of t) t.slope) ≡ ok 0

  map-InTurn :
      {T : Type 0} (round : T → M State Bool) (Match : T → State → State → Type 0)
      → ((t : T) (s u : State) → round t s ≡ (ok true, u) → Match t s u)
      → (tiles : List T) (s u : State) → InTurn (λ t s u. round t s ≡ (ok true, u)) tiles s u
      → InTurn Match tiles s u
  map-InTurn round Match each [] s u h = h
  map-InTurn round Match each (t ∷ tiles) s u (m, first, rest) =
      (m, each t s m first, map-InTurn round Match each tiles m u rest)

  sparse_round-Match :
      (t : SparseTile) (s u : State) → sparse_round board rng t s ≡ (ok true, u) → SparseMatch t s u
  unfolding sparse_round
  sparse_round-Match t s u h =
      let (weights, acts) = gen_pairs rng t.size t.sparsity t.seed in
      let want = SparseMac.golden weights acts in
      let compared = λ (got : ℤ × ℕ). return (got.0 ==ℤ want.0 && got.1 == want.1) in
      let (_, sent, w, k) =
        bind-eq-ok (write (pack_beats (SparseMac.zip weights acts)))
          (λ _. read 8 >>= λ answer. lift (unpack_results answer) >>= compared) h in
      let (answer, v, r, l) =
        bind-eq-ok (read 8) (λ answer. lift (unpack_results answer) >>= compared) k in
      let (got, x, g, last) = bind-eq-ok (lift (unpack_results answer)) compared l in
      let kept : v ≡ u = ap (λ y. y.1) g ∙ ap (λ y. y.1) last in
      record {
        sent = sent;
        answer = answer;
        writes = w;
        reads = r ∙ ap (λ y. (ok answer, y)) kept;
        golden =
            ap (λ y. y.0) g ∙ ap ok (same_results got want (ok-injective (ap (λ y. y.0) last)));
      }

  relu_round-Match :
      (t : ReluTile) (s u : State) → relu_round board rng t s ≡ (ok true, u) → ReluMatch t s u
  unfolding relu_round
  relu_round-Match t s u h =
      let tile = tile_of t in
      let counted = λ (wrong : ℕ). return (wrong == 0) in
      let compared = λ (answer : List ℕ).
        lift (mismatches (from_int8_bytes answer) (Relu.golden tile t.slope)) >>= counted in
      let (_, sloped, p, k) =
        bind-eq-ok (write_slope (decimal t.slope ++ codes "\n"))
          (λ _. write (int8_bytes tile) >>= λ _. read t.size >>= compared) h in
      let (_, sent, w, l) =
        bind-eq-ok (write (int8_bytes tile)) (λ _. read t.size >>= compared) k in
      let (answer, v, r, n) = bind-eq-ok (read t.size) compared l in
      let (wrong, x, g, last) =
        bind-eq-ok (lift (mismatches (from_int8_bytes answer) (Relu.golden tile t.slope))) counted
          n in
      let kept : v ≡ u = ap (λ y. y.1) g ∙ ap (λ y. y.1) last in
      record {
        sloped = sloped;
        sent = sent;
        answer = answer;
        slopes = p;
        writes = w;
        reads = r ∙ ap (λ y. (ok answer, y)) kept;
        no_mismatch =
            ap (λ y. y.0) g ∙ ap ok ((==_iff wrong 0).0 (ok-injective (ap (λ y. y.0) last)));
      }

  -- Both runners count up to all of their tiles only if each of them matched.
  pub run_sparse_cnn-InTurn :
      (total : ℕ) (s u : State)
      → run_sparse_cnn board rng s ≡ (ok (total, total), u)
      → InTurn SparseMatch sparse_tiles s u
  unfolding run_sparse_cnn sparse_rounds
  run_sparse_cnn-InTurn total s u h =
      let (matched, v, ran, last) =
        bind-eq-ok (sparse_rounds board rng 0 sparse_tiles)
          (λ matched. return (matched, length sparse_tiles)) h in
      let counts = ok-injective (ap (λ x. x.0) last) in
      let all =
        (rounds-Says (sparse_round board rng) (sparse_rounds board rng) (λ n. refl)
            (λ n t tiles. refl) 0 sparse_tiles s v matched ran).1
          (ap (λ x. x.0) counts ∙ sym (ap (λ x. x.1) counts)) in
      map-InTurn (sparse_round board rng) SparseMatch sparse_round-Match sparse_tiles s u (
        subst (λ x. InTurn (λ t s u. sparse_round board rng t s ≡ (ok true, u)) sparse_tiles s x)
          (ap (λ x. x.1) last) all)

  pub run_relu-InTurn :
      (total : ℕ) (s u : State)
      → run_relu board rng s ≡ (ok (total, total), u)
      → InTurn ReluMatch relu_tiles s u
  unfolding run_relu relu_rounds
  run_relu-InTurn total s u h =
      let (matched, v, ran, last) =
        bind-eq-ok (relu_rounds board rng 0 relu_tiles)
          (λ matched. return (matched, length relu_tiles)) h in
      let counts = ok-injective (ap (λ x. x.0) last) in
      let all =
        (rounds-Says (relu_round board rng) (relu_rounds board rng) (λ n. refl) (λ n t tiles. refl)
            0 relu_tiles s v matched ran).1
          (ap (λ x. x.0) counts ∙ sym (ap (λ x. x.1) counts)) in
      map-InTurn (relu_round board rng) ReluMatch relu_round-Match relu_tiles s u (
        subst (λ x. InTurn (λ t s u. relu_round board rng t s ≡ (ok true, u)) relu_tiles s x)
          (ap (λ x. x.1) last) all)
