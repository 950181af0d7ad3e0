-- ===== src/Overlay/Link/ReadBack.antt =====
-- What `property_value` of flows/embedded/overlay.py reads from the client that `link_dma_client`
-- linked to the DMA.
use zynq_rtl_flow.Base.{
  List, [], ◌∷◌, ◌++◌, map, append_assoc, Option, none, some, true, false, ◌==◌, ◌≡◌, ◌≢◌, refl, ap,
  ◌∙◌, ok, All,
}
use zynq_rtl_flow.Str.{Text, codes, is_space, strip_prefix, join, replace_once}
use zynq_rtl_flow.Re.{is_word, is_name_start, assignment, search_from, search_assignment}
use zynq_rtl_flow.Re.Skip.{Quiet, Quiet-plain, NoEquals, search-skip, value_found, word_behind}
use zynq_rtl_flow.Overlay.Nodes.{property_value}
use zynq_rtl_flow.Overlay.Interrupts.{DmaChannel, in_quotes}
use zynq_rtl_flow.Overlay.Link.{reference, channels_of, sort_channels, link_text, linked, connect}
use zynq_rtl_flow.Overlay.Link.Connect.{Connection, connect-Connection}
use zynq_rtl_flow.Overlay.Link.Property.{
  IsClean, Clean-NoEnd, Clean-NoEquals, Starts, Quiet-spaces, value_indented,
}
use zynq_rtl_flow.Overlay.Link.Clean.{
  CleanChannel, join-All, join-Starts, All-references, All-names, channels_of-Clean,
  sort_channels-Clean, labelled-Clean, indent_of-spaces,
}

-- the texts of the two values
abbrev pub dmas : Text → List DmaChannel → Text
dmas label channels = join (codes ", ") (map (reference label) channels)

abbrev pub dma_names : List DmaChannel → Text
dma_names channels = join (codes ", ") (map (λ c. in_quotes c.name) channels)

-- the heading of a node: no sign of equality and no brace
abbrev pub Heading : Text → Type 0
Heading h = NoEquals h × All (λ c. (b'{' == c) ≡ false) h

-- the text of a linked client, and what is left of it behind its first new property
abbrev names_text : Text → Text → Text → Text
names_text indent names w =
    b'\n' ∷ (indent ++ (codes "dma-names" ++ (codes " = " ++ (names ++ b';' ∷ w))))

abbrev body_text : Text → Text → Text → Text → Text
body_text indent values names w =
    b'\n'
    ∷ (indent ++ (codes "dmas" ++ (codes " = " ++ (values ++ b';' ∷ names_text indent names w))))

replace_once-brace :
    (h new w : Text)
    → All (λ c. (b'{' == c) ≡ false) h
    → replace_once (codes "{") new (h ++ b'{' ∷ w) ≡ h ++ (new ++ w)
unfolding replace_once strip_prefix
replace_once-brace [] new w quiet = refl
replace_once-brace (c ∷ h) new w (other, quiet) =
    ap
      (λ b.
        put (elim b [ true ↦ some (h ++ b'{' ∷ w) | false ↦ none ])
          (c ∷ replace_once (codes "{") new (h ++ b'{' ∷ w)))
      other
    ∙ ap (λ t. c ∷ t) (replace_once-brace h new w quiet)
  where
    put : Option Text → Text → Text
    put found kept = elim found [ some rest ↦ new ++ rest | none ↦ kept ]

-- the new text of the brace, and what follows it
nested :
    (i v u w : Text)
    → (codes "{\n"
          ++ i
          ++ codes "dmas = "
          ++ v
          ++ codes ";\n"
          ++ i
          ++ codes "dma-names = "
          ++ u
          ++ codes ";")
        ++ w
      ≡ b'{' ∷ body_text i v u w
nested i v u w =
    let b0 = codes "{\n" in
    let b1 = b0 ++ i in
    let b2 = b1 ++ codes "dmas = " in
    let b3 = b2 ++ v in
    let b4 = b3 ++ codes ";\n" in
    let b5 = b4 ++ i in
    let b6 = b5 ++ codes "dma-names = " in
    append_assoc (b6 ++ u) (codes ";") w
    ∙ (append_assoc b6 u (b';' ∷ w)
        ∙ (append_assoc b5 (codes "dma-names = ") (u ++ b';' ∷ w)
            ∙ (append_assoc b4 i (codes "dma-names = " ++ (u ++ b';' ∷ w))
                ∙ (append_assoc b3 (codes ";\n") (i ++ (codes "dma-names = " ++ (u ++ b';' ∷ w)))
                    ∙ (append_assoc b2 v (b';' ∷ names_text i u w)
                        ∙ (append_assoc b1 (codes "dmas = ") (v ++ b';' ∷ names_text i u w)
                            ∙ append_assoc b0 i
                                (codes "dmas = " ++ (v ++ b';' ∷ names_text i u w))))))))

linked-shape :
    (h w indent label : Text) (channels : List DmaChannel)
    → Heading h
    → linked (h ++ b'{' ∷ w) indent label channels
      ≡ h ++ b'{' ∷ body_text indent (dmas label channels) (dma_names channels) w
unfolding linked link_text
linked-shape h w indent label channels (_, quiet) =
    replace_once-brace h (link_text indent label channels) w quiet
    ∙ ap (λ t. h ++ t) (nested indent (dmas label channels) (dma_names channels) w)

-- The search passes over the heading and the brace.
search-heading :
    (name h t : Text)
    → All (λ n. (n == b'{') ≡ false) name
    → NoEquals h
    → Quiet name (b'{' ∷ []) t
    → value_found (search_from name false (h ++ b'{' ∷ t)) ≡ value_found (search_from name false t)
unfolding is_space is_word is_name_start
search-heading name h t others plain quiet =
    search-skip name h (b'{' ∷ t) false (Quiet-plain b'{' name h t refl refl others plain)
    ∙ search-skip name (b'{' ∷ []) t (word_behind false h) quiet

-- the two properties of a linked client
module _ (h w indent : Text) (label : Text) (channel : DmaChannel) (channels : List DmaChannel)
    (heading : Heading h) (spaces : All (λ c. is_space c ≡ true) indent) (clean : All IsClean label)
    (all : All CleanChannel (channel ∷ channels)) where
  abbrev values : Text
  values = dmas label (channel ∷ channels)

  abbrev names : Text
  names = dma_names (channel ∷ channels)

  values-Clean : All IsClean values
  values-Clean =
      join-All IsClean (codes ", ") (map (reference label) (channel ∷ channels))
        ((refl, refl), ((refl, refl), tt)) (All-references label (channel ∷ channels) clean all)

  names-Clean : All IsClean names
  names-Clean =
      join-All IsClean (codes ", ") (map (λ c. in_quotes c.name) (channel ∷ channels))
        ((refl, refl), ((refl, refl), tt)) (All-names (channel ∷ channels) all)

  values-Starts : Starts values
  unfolding is_space
  values-Starts =
      join-Starts (codes ", ") (reference label channel) (map (reference label) channels) refl

  names-Starts : Starts names
  unfolding is_space
  names-Starts =
      join-Starts (codes ", ") (in_quotes channel.name) (map (λ c. in_quotes c.name) channels) refl

  linked-dmas :
      value_found (search_from (codes "dmas") false (h ++ b'{' ∷ body_text indent values names w))
      ≡ some values
  unfolding assignment strip_prefix is_space is_word is_name_start
  linked-dmas =
      search-heading (codes "dmas") h (body_text indent values names w)
        (refl, (refl, (refl, (refl, tt)))) heading.0 (refl, tt)
      ∙ value_indented b'd' (codes "mas") indent values (names_text indent names w) false refl refl
          spaces values-Starts (Clean-NoEnd values values-Clean)

  -- The search for the second name passes over the first property.
  search-first :
      value_found (search_from (codes "dma-names") false (body_text indent values names w))
      ≡ value_found (search_from (codes "dma-names") false (names_text indent names w))
  unfolding assignment strip_prefix is_space is_word is_name_start
  search-first =
      let name = codes "dma-names" in
      let t1 = codes " = " ++ (values ++ b';' ∷ names_text indent names w) in
      let t0 = codes "dmas" ++ t1 in
      search-skip name (b'\n' ∷ []) (indent ++ t0) false (refl, tt)
      ∙ (search-skip name indent t0 false
            (Quiet-spaces b'd' (codes "ma-names") indent t0 refl spaces)
          ∙ (search-skip name (codes "dmas = ") (values ++ b';' ∷ names_text indent names w)
                (word_behind false indent)
                (refl, (refl, (refl, (refl, (refl, (refl, (refl, tt)))))))
              ∙ (search-skip name values (b';' ∷ names_text indent names w) false (
                    Quiet-plain b';' name values (names_text indent names w) refl refl
                      (refl, (refl, (refl, (refl, (refl, (refl, (refl, (refl, (refl, tt)))))))))
                      (Clean-NoEquals values values-Clean))
                  ∙ search-skip name (b';' ∷ []) (names_text indent names w)
                      (word_behind false values) (refl, tt))))

  linked-dma_names :
      value_found
        (search_from (codes "dma-names") false (h ++ b'{' ∷ body_text indent values names w))
      ≡ some names
  unfolding assignment strip_prefix is_space is_word is_name_start
  linked-dma_names =
      search-heading (codes "dma-names") h (body_text indent values names w)
        (refl, (refl, (refl, (refl, (refl, (refl, (refl, (refl, (refl, tt))))))))) heading.0
        (refl, tt)
      ∙ (search-first
          ∙ value_indented b'd' (codes "ma-names") indent names w false refl refl spaces
              names-Starts (Clean-NoEnd names names-Clean))

-- both properties, for the channels that a DMA node has
linked-values :
    (h w indent label : Text) (channels : List DmaChannel)
    → Heading h
    → All (λ c. is_space c ≡ true) indent
    → All IsClean label
    → All CleanChannel channels
    → channels ≢ []
    → (property_value (linked (h ++ b'{' ∷ w) indent label channels) (codes "dmas")
        ≡ some (dmas label channels))
      × (property_value (linked (h ++ b'{' ∷ w) indent label channels) (codes "dma-names")
          ≡ some (dma_names channels))
unfolding property_value search_assignment
linked-values h w indent label [] heading spaces clean all some_channel = absurd (some_channel refl)
linked-values h w indent label (c ∷ channels) heading spaces clean all some_channel =
    let shape = linked-shape h w indent label (c ∷ channels) heading in
    (
      ap (λ t. value_found (search_from (codes "dmas") false t)) shape
          ∙ linked-dmas h w indent label c channels heading spaces clean all,
      ap (λ t. value_found (search_from (codes "dma-names") false t)) shape
          ∙ linked-dma_names h w indent label c channels heading spaces clean all,
    )

-- When `link_dma_client` connects a client whose text holds no `=` in front of its first brace,
-- `property_value` reads two properties in the new text: as `dmas` a reference to the DMA's label with
-- the cell for each of the DMA's channels, as `dma-names` their quoted names, both as sorted by cell.
pub connect-reads_back :
    (dma new h w : Text)
    → connect dma (h ++ b'{' ∷ w) ≡ ok new
    → Heading h
    → (c : Connection dma (h ++ b'{' ∷ w) new) × (property_value new (codes "dmas")
        ≡ some (dmas c.label (sort_channels (channels_of c.children))))
      × (property_value new (codes "dma-names")
          ≡ some (dma_names (sort_channels (channels_of c.children))))
connect-reads_back dma new h w connected heading =
    let c = connect-Connection dma (h ++ b'{' ∷ w) new connected in
    let (values, names) =
      linked-values h w c.indent c.label (sort_channels (channels_of c.children)) heading
        (indent_of-spaces (h ++ b'{' ∷ w) c.indent c.indented)
        (labelled-Clean dma c.label c.has_label)
        (sort_channels-Clean (channels_of c.children) (channels_of-Clean c.children))
        c.has_channel in
    (
      c,
      ap (λ t. property_value t (codes "dmas")) c.new_is ∙ values,
      ap (λ t. property_value t (codes "dma-names")) c.new_is ∙ names,
    )
