-- ===== src/Overlay/Fixtures.antt =====
-- The trees of tests/test-overlay.sh, with the properties that the script reads.
use zynq_rtl_flow.Base.{◌++◌}
use zynq_rtl_flow.Str.{Text, codes}

abbrev pub sparse_tree : Text
sparse_tree =
    codes "/dts-v1/;\n"
    ++ codes "/ {\n"
    ++ codes "\tamba_pl: amba_pl@0 {\n"
    ++ codes "\t\tcompatible = \"simple-bus\";\n"
    ++ codes "\t\taccel: sparse_cnn_axi@a0000000 {\n"
    ++ codes "\t\t\tclocks = <&zynqmp_clk 71>;\n"
    ++ codes "\t\t\tcompatible = \"xlnx,sparse-cnn-axi-1.0\";\n"
    ++ codes "\t\t\txlnx,ip-name = \"sparse_cnn_axi\";\n"
    ++ codes "\t\t};\n"
    ++ codes "\t\taxi_dma_0: dma@a0010000 {\n"
    ++ codes "\t\t\tcompatible = \"xlnx,axi-dma-7.1\";\n"
    ++ codes "\t\t\tinterrupt-names = \"mm2s_introut\";\n"
    ++ codes "\t\t\tinterrupt-parent = <&imux>;\n"
    ++ codes "\t\t\tinterrupts = <0 89 4>;\n"
    ++ codes "\t\t\tdma-channel@a0010000 {\n"
    ++ codes "\t\t\t\tcompatible = \"xlnx,axi-dma-mm2s-channel\";\n"
    ++ codes "\t\t\t\tinterrupt-parent = <&imux>;\n"
    ++ codes "\t\t\t\tinterrupts = <0 101 4>;\n"
    ++ codes "\t\t\t};\n"
    ++ codes "\t\t};\n"
    ++ codes "\t};\n"
    ++ codes "};\n"

abbrev pub relu_tree : Text
relu_tree =
    codes "/dts-v1/;\n"
    ++ codes "/ {\n"
    ++ codes "\tamba_pl: amba_pl@0 {\n"
    ++ codes "\t\tcompatible = \"simple-bus\";\n"
    ++ codes "\t\taccel: relu_axi@a0000000 {\n"
    ++ codes "\t\t\tclocks = <&zynqmp_clk 71>;\n"
    ++ codes "\t\t\tcompatible = \"xlnx,relu-axi-1.0\";\n"
    ++ codes "\t\t\txlnx,ip-name = \"relu_axi\";\n"
    ++ codes "\t\t};\n"
    ++ codes "\t\taxi_dma_0: dma@a0010000 {\n"
    ++ codes "\t\t\tcompatible = \"xlnx,axi-dma-7.1\";\n"
    ++ codes "\t\t\tinterrupt-names = \"mm2s_introut\", \"s2mm_introut\";\n"
    ++ codes "\t\t\tinterrupt-parent = <&imux>;\n"
    ++ codes "\t\t\tinterrupts = < 0 89 4 0 90 4 >;\n"
    ++ codes "\t\t\tdma-channel@a0010000 {\n"
    ++ codes "\t\t\t\tcompatible = \"xlnx,axi-dma-mm2s-channel\";\n"
    ++ codes "\t\t\t\tinterrupt-parent = <&imux>;\n"
    ++ codes "\t\t\t\tinterrupts = <0 101 4>;\n"
    ++ codes "\t\t\t};\n"
    ++ codes "\t\t\tdma-channel@a0010030 {\n"
    ++ codes "\t\t\t\tcompatible = \"xlnx,axi-dma-s2mm-channel\";\n"
    ++ codes "\t\t\t\tinterrupt-parent = <&imux>;\n"
    ++ codes "\t\t\t\tinterrupts = <0 102 4>;\n"
    ++ codes "\t\t\t};\n"
    ++ codes "\t\t};\n"
    ++ codes "\t};\n"
    ++ codes "};\n"
