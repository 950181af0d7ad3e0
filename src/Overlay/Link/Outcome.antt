-- ===== src/Overlay/Link/Outcome.antt =====
-- What `link_dma_client` does to the nodes: nothing, or the link in the one client.
use zynq_rtl_flow.Base.{
  List, [], ◌∷◌, ◌++◌, Bool, true, false, ◌≡◌, ◌⊎◌, inl, inr, refl, sym, ap, ◌∙◌, ok, bind-eq-ok,
  ok-injective, arith, All, Bool-cases,
}
use zynq_rtl_flow.Str.{Text}
use zynq_rtl_flow.Overlay.Link.{
  is_dma, is_client, select, connect, replace_client, link_selected, link_dma_client,
}
use zynq_rtl_flow.Overlay.Link.Connect.{Connection, connect-Connection}

-- The test fails on every node of the list.
abbrev pub AllFail : (Text → Bool) → List Text → Type 0
AllFail test = All (λ b. test b ≡ false)

select-none : (test : Text → Bool) (nodes : List Text) → select test nodes ≡ [] → AllFail test nodes
unfolding select
select-none test [] h = tt
select-none test (b ∷ nodes) h = elim (Bool-cases (test b)) [
  | inl e ↦ absurd (ground arith)
  | inr e ↦ (e, select-none test nodes (ground arith))
]

-- The one node of the list on which the test holds, with what stands before and behind it.
pub record TheOne (test : Text → Bool) (nodes : List Text) (b : Text) : Type 0 where
  pub pre : List Text
  pub post : List Text
  pub around : nodes ≡ pre ++ b ∷ post
  pub holds : test b ≡ true
  pub none_before : AllFail test pre
  pub none_behind : AllFail test post

cons-TheOne :
    (test : Text → Bool) (c : Text) {nodes : List Text} {b : Text}
    → test c ≡ false
    → TheOne test nodes b
    → TheOne test (c ∷ nodes) b
cons-TheOne test c e one = record {
  pre = c ∷ one.pre;
  post = one.post;
  around = ap (◌∷◌ c) one.around;
  holds = one.holds;
  none_before = (e, one.none_before);
  none_behind = one.none_behind;
}

select-cons :
    (test : Text → Bool) (c : Text) (nodes : List Text) (b : Text)
    → test c ≡ true
    → select test (c ∷ nodes) ≡ b ∷ []
    → (c ≡ b) × (select test nodes ≡ [])
unfolding select
select-cons test c nodes b e h = ground arith

select-TheOne :
    (test : Text → Bool) (nodes : List Text) (b : Text)
    → select test nodes ≡ b ∷ []
    → TheOne test nodes b
unfolding select
select-TheOne test [] b h = absurd (ground arith)
select-TheOne test (c ∷ nodes) b h = elim (Bool-cases (test c)) [
  | inl e ↦
      let (same, rest) = select-cons test c nodes b e h in
      rw (← same) (record {
        pre = [];
        post = nodes;
        around = refl;
        holds = e;
        none_before = tt;
        none_behind = select-none test nodes rest;
      })
  | inr e ↦ cons-TheOne test c e (select-TheOne test nodes b (ground arith))
]

replace_client-none :
    (ip new : Text) (nodes : List Text)
    → AllFail (is_client ip) nodes
    → replace_client ip new nodes ≡ nodes
unfolding replace_client
replace_client-none ip new [] h = refl
replace_client-none ip new (b ∷ nodes) h = rw (h.0, replace_client-none ip new nodes h.1) refl

replace_client-around :
    (ip new client : Text) (pre post : List Text)
    → AllFail (is_client ip) pre
    → is_client ip client ≡ true
    → AllFail (is_client ip) post
    → replace_client ip new (pre ++ client ∷ post) ≡ pre ++ new ∷ post
unfolding replace_client
replace_client-around ip new client [] post p h q = rw (h, replace_client-none ip new post q) refl
replace_client-around ip new client (b ∷ pre) post p h q =
    rw (p.0, replace_client-around ip new client pre post p.1 h q) refl

-- The link between the one DMA and the one client, and the nodes with it.
pub record Link (ip : Text) (nodes result : List Text) : Type 0 where
  pub dma : Text
  pub client : Text
  pub new : Text
  pub the_dma : TheOne is_dma nodes dma
  pub the_client : TheOne (is_client ip) nodes client
  pub connection : Connection dma client new
  pub replaced : result ≡ the_client.pre ++ new ∷ the_client.post

link_selected-ok :
    (ip : Text) (nodes dmas clients result : List Text)
    → dmas ≡ select is_dma nodes
    → clients ≡ select (is_client ip) nodes
    → link_selected ip nodes dmas clients ≡ ok result
    → (AllFail is_dma nodes × AllFail (is_client ip) nodes × (result ≡ nodes))
      ⊎ Link ip nodes result
unfolding link_selected
link_selected-ok ip nodes [] [] result d c h = inl (
  select-none is_dma nodes (sym d),
  select-none (is_client ip) nodes (sym c),
  sym (ok-injective h),
)
link_selected-ok ip nodes (dma ∷ []) (client ∷ []) result d c h =
    let (new, p, q) = bind-eq-ok (connect dma client) (λ new. ok (replace_client ip new nodes)) h in
    let one = select-TheOne (is_client ip) nodes client (sym c) in
    inr (record {
      dma = dma;
      client = client;
      new = new;
      the_dma = select-TheOne is_dma nodes dma (sym d);
      the_client = one;
      connection = connect-Connection dma client new p;
      replaced =
          sym (ok-injective q)
          ∙ (ap (replace_client ip new) one.around
              ∙ replace_client-around ip new client one.pre one.post one.none_before one.holds
                  one.none_behind);
    })
link_selected-ok ip nodes [] (client ∷ clients) result d c h = absurd (ground arith)
link_selected-ok ip nodes (dma ∷ []) [] result d c h = absurd (ground arith)
link_selected-ok ip nodes (dma ∷ []) (client ∷ x ∷ xs) result d c h = absurd (ground arith)
link_selected-ok ip nodes (dma ∷ x ∷ xs) clients result d c h = absurd (ground arith)

-- If the linking succeeds, then either no node is a DMA, none is the client and the nodes stay as
-- they are, or exactly one is a DMA and exactly one the client, and the result has the client's new
-- text in the client's place and every other node as it was.
pub link_dma_client_ok :
    (ip : Text) (nodes result : List Text)
    → link_dma_client ip nodes ≡ ok result
    → (AllFail is_dma nodes × AllFail (is_client ip) nodes × (result ≡ nodes))
      ⊎ Link ip nodes result
unfolding link_dma_client
link_dma_client_ok ip nodes result h =
    link_selected-ok ip nodes (select is_dma nodes) (select (is_client ip) nodes) result refl refl h
