-- ===== src/Tests/ReadBack.antt =====
-- What `property_value` reads behind the edits of flows/embedded/overlay.py, at concrete nodes.
use zynq_rtl_flow.Base.{err, re_error, ◌∷◌, ◌++◌, ◌≡◌, refl, ok, some}
use zynq_rtl_flow.Base.Int.{◌+ℤ◌}
use zynq_rtl_flow.Str.{Text, codes, strip, lstrip, is_space}
use zynq_rtl_flow.Re.{search_assignment}
use zynq_rtl_flow.Overlay.Nodes.{property_value}
use zynq_rtl_flow.Overlay.Interrupts.{fix_channel}
use zynq_rtl_flow.Overlay.Interrupts.ReadBack.{interrupts, cells, fix_channel-reads_back}
use zynq_rtl_flow.Overlay.Link.{connect, sort_channels, channels_of}
use zynq_rtl_flow.Overlay.Link.Connect.{Connection}
use zynq_rtl_flow.Overlay.Link.ReadBack.{dmas, dma_names, Heading, connect-reads_back}

-- a channel node with another property of a longer name in front of its interrupts
abbrev channel_node : Text
channel_node =
    codes
      "dma-channel@41e00000 { interrupt-names = 1; interrupts = < 0 29 >; xlnx,datawidth = <0x20>; };"

abbrev channel_fixed : Text
channel_fixed =
    codes
      "dma-channel@41e00000 { interrupt-names = 1; interrupts = <0 89 4>; xlnx,datawidth = <0x20>; };"

fixes : fix_channel (codes " 0 89 4 ") channel_node ≡ ok channel_fixed
unfolding fix_channel
fixes = refl

-- `re.sub` expands an escape of the specifier, and refuses one it does not know
expands :
    fix_channel (codes "\\g<0>\\061") (codes "interrupts = <0>;")
    ≡ ok (codes "interrupts = <interrupts = <0>;1>;")
unfolding fix_channel
expands = refl

refuses : fix_channel (codes "\\q") channel_node ≡ err re_error
unfolding fix_channel
refuses = refl

fix_channel-reads_back_example :
    (fixed : Text) × (fix_channel (codes " 0 89 4 ") channel_node ≡ ok fixed)
    × (property_value fixed interrupts ≡ some (cells (codes " 0 89 4 ")))
    × (fix_channel (codes "0 90 4") fixed ≡ fix_channel (codes "0 90 4") channel_node)
unfolding property_value search_assignment strip lstrip is_space
fix_channel-reads_back_example =
    fix_channel-reads_back (codes " 0 89 4 ") (codes "0 90 4") channel_node (codes "< 0 29 >") refl
      (refl, (refl, (refl, (refl, (refl, (refl, tt))))))
      (refl, (refl, (refl, (refl, (refl, (refl, tt))))))
      (refl, (refl, (refl, (refl, (refl, (refl, tt))))))

-- a DMA with both channels, the second one first
abbrev both_channels : Text
both_channels =
    codes "dma0: dma@a0010000 {\n"
    ++ codes "\tcompatible = \"xlnx,axi-dma-7.1\";\n"
    ++ codes "\tdma-channel@a0010030 {\n"
    ++ codes "\t\tcompatible = \"xlnx,axi-dma-s2mm-channel\";\n"
    ++ codes "\t};\n"
    ++ codes "\tdma-channel@a0010000 {\n"
    ++ codes "\t\tcompatible = \"xlnx,axi-dma-mm2s-channel\";\n"
    ++ codes "\t};\n"
    ++ codes "};\n"

abbrev client_heading : Text
client_heading = codes "accel: relu_axi@a0000000 "

abbrev client_body : Text
client_body = codes "\n\txlnx,ip-name = \"relu_axi\";\n};"

abbrev client : Text
client = client_heading ++ b'{' ∷ client_body

abbrev client_linked : Text
client_linked =
    client_heading
    ++ codes "{\n\tdmas = <&dma0 0>, <&dma0 1>;\n\tdma-names = \"tx\", \"rx\";"
    ++ client_body

connects : connect both_channels client ≡ ok client_linked
unfolding connect ◌+ℤ◌
connects = refl

client-Heading : Heading client_heading
client-Heading = (
  (
    refl,
    (
      refl,
      (
        refl,
        (
          refl,
          (
            refl,
            (
              refl,
              (
                refl,
                (
                  refl,
                  (
                    refl,
                    (
                      refl,
                      (
                        refl,
                        (
                          refl,
                          (
                            refl,
                            (
                              refl,
                              (
                                refl,
                                (
                                  refl,
                                  (
                                    refl,
                                    (
                                      refl,
                                      (refl, (refl, (refl, (refl, (refl, (refl, (refl, tt))))))),
                                    ),
                                  ),
                                ),
                              ),
                            ),
                          ),
                        ),
                      ),
                    ),
                  ),
                ),
              ),
            ),
          ),
        ),
      ),
    ),
  ),
  (
    refl,
    (
      refl,
      (
        refl,
        (
          refl,
          (
            refl,
            (
              refl,
              (
                refl,
                (
                  refl,
                  (
                    refl,
                    (
                      refl,
                      (
                        refl,
                        (
                          refl,
                          (
                            refl,
                            (
                              refl,
                              (
                                refl,
                                (
                                  refl,
                                  (
                                    refl,
                                    (
                                      refl,
                                      (refl, (refl, (refl, (refl, (refl, (refl, (refl, tt))))))),
                                    ),
                                  ),
                                ),
                              ),
                            ),
                          ),
                        ),
                      ),
                    ),
                  ),
                ),
              ),
            ),
          ),
        ),
      ),
    ),
  ),
)

connect-reads_back_example :
    (c : Connection both_channels client client_linked) × (property_value client_linked
        (codes "dmas")
      ≡ some (dmas c.label (sort_channels (channels_of c.children))))
    × (property_value client_linked (codes "dma-names")
        ≡ some (dma_names (sort_channels (channels_of c.children))))
connect-reads_back_example =
    connect-reads_back both_channels client_linked client_heading client_body connects
      client-Heading
