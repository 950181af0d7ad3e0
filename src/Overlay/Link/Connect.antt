-- ===== src/Overlay/Link/Connect.antt =====
-- What `link_dma_client` writes into the client, and what it takes for it.
use zynq_rtl_flow.Base.{
  List, [], false, ◌≡◌, ◌≢◌, inl, inr, refl, sym, ◌∙◌, Result, ok, err, exit, ◌>>=◌, bind-eq-ok,
  ok-injective, arith, Bool-cases, Option-cases, none, some, if◌then◌else◌,
}
use zynq_rtl_flow.Str.{Text, is_empty}
use zynq_rtl_flow.Overlay.Nodes.{split_node}
use zynq_rtl_flow.Overlay.Interrupts.{DmaChannel}
use zynq_rtl_flow.Overlay.Link.{
  labelled, channels_of, sort_channels, indent_of, linked, connect, no_label, no_channel,
}

-- What a link in the client's text rests on: the label of the DMA, its channels, the client's
-- indentation.
pub record Connection (dma client new : Text) : Type 0 where
  pub label : Text
  pub children : List Text
  pub own : Text
  pub indent : Text
  pub has_label : labelled dma ≡ some label
  pub parts : split_node dma ≡ ok (own, children)
  pub has_channel : sort_channels (channels_of children) ≢ []
  pub indented : indent_of client ≡ ok indent
  pub new_is : new ≡ linked client indent label (sort_channels (channels_of children))

-- the end of `connect`, for the channels
abbrev link_channels : Text → Text → List DmaChannel → Result Text
link_channels client label channels =
    if is_empty channels
    then err (exit no_channel)
    else (indent_of client >>= λ indent. ok (linked client indent label channels))

is_empty-nil {ℓ} : {A : Type ℓ} (xs : List A) → is_empty xs ≡ false → xs ≢ []
unfolding is_empty
is_empty-nil xs h e = ground arith

link_channels-ok :
    (client label new : Text) (channels : List DmaChannel)
    → link_channels client label channels ≡ ok new
    → (indent : Text) × (channels ≢ [])
      × (indent_of client ≡ ok indent)
      × (new ≡ linked client indent label channels)
link_channels-ok client label new channels h = elim (Bool-cases (is_empty channels)) [
  | inl e ↦ absurd (refused (rw e at h))
  | inr e ↦
      let (indent, p, q) =
        bind-eq-ok (indent_of client) (λ indent. ok (linked client indent label channels))
          (rw e at h) in
      (indent, is_empty-nil channels e, p, sym (ok-injective q))
]
  where
    refused : err (exit no_channel) ≡ ok new → ⊥
    refused k = cc

connect-none : (dma client : Text) → labelled dma ≡ none → connect dma client ≡ err (exit no_label)
unfolding connect
connect-none dma client e = rw (e, connect) refl

connect-some :
    (dma client label : Text)
    → labelled dma ≡ some label
    → connect dma client
      ≡ (split_node dma >>= λ node. link_channels client label (sort_channels (channels_of node.1)))
unfolding connect
connect-some dma client label e = rw (e, connect) refl

pub connect-Connection :
    (dma client new : Text) → connect dma client ≡ ok new → Connection dma client new
connect-Connection dma client new h = elim (Option-cases (labelled dma)) [
  | inl e ↦ absurd (refused (sym (connect-none dma client e) ∙ h))
  | inr (label, e) ↦
      let (node, p, q) =
        bind-eq-ok (split_node dma)
          (λ node. link_channels client label (sort_channels (channels_of node.1)))
          (sym (connect-some dma client label e) ∙ h) in
      let (indent, some_channel, i, n) = link_channels-ok client label new _ q in
      record {
        label = label;
        children = node.1;
        own = node.0;
        indent = indent;
        has_label = e;
        parts = p;
        has_channel = some_channel;
        indented = i;
        new_is = n;
      }
]
  where
    refused : err (exit no_label) ≡ ok new → ⊥
    refused k = cc
