-- ===== src/Tests/Boot.antt =====
-- The theorems on flows/embedded/boot.py on hosts that build both ELFs, or only one.
use zynq_rtl_flow.Base.{arith, List, [], ◌∷◌, ◌≡◌, ◌≢◌, refl, ok}
use zynq_rtl_flow.Str.{Text, codes, text_eq}
use zynq_rtl_flow.Boot.{Settings, boot, missing, elves, settings, path_join, elf_src}
use zynq_rtl_flow.Boot.Outcome.{Booted, boot_success}
use zynq_rtl_flow.Tests.Fixtures.{host_building}

abbrev fsbl_path : Text
fsbl_path = codes "/ws/plat/export/plat/sw/boot/fsbl.elf"

abbrev pmufw_path : Text
pmufw_path = codes "/ws/plat/export/plat/sw/boot/pmufw.elf"

abbrev both : List Text
both = fsbl_path ∷ pmufw_path ∷ codes "/ws/plat/export/plat/hw/sdt" ∷ []

abbrev after_boot : List Text
after_boot = codes "/out/sdt" ∷ codes "/out/pmufw.elf" ∷ codes "/out/fsbl.elf" ∷ both

boots : boot (host_building both) [] ≡ (ok tt, after_boot)
unfolding boot text_eq
boots = refl

boot_success_example : Booted (host_building both) [] after_boot
boot_success_example = boot_success (host_building both) [] after_boot boots

abbrev half : List Text
half = fsbl_path ∷ []

abbrev config : Settings
config = record {
  xsa = codes "top.xsa";
  workspace = codes "/ws";
  out_dir = codes "/out";
  cpu = codes "psu_cortexa53_0";
  name = codes "plat";
}

configured : settings (host_building half) [] ≡ (ok config, [])
unfolding settings text_eq
configured = refl

lacks_pmufw : missing (host_building half) (elves config) half ≡ pmufw_path ∷ []
unfolding missing text_eq path_join elf_src
lacks_pmufw = refl

lacks : missing (host_building half) (elves config) half ≢ []
lacks e = ground (arith, lacks_pmufw)
