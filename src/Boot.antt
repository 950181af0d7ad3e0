-- ===== src/Boot.antt =====
-- flows/embedded/boot.py: build the boot components and collect them. What it prints is left out.
pub mod Outcome
use zynq_rtl_flow.Base.{
  ℕ, List, [], ◌∷◌, ◌++◌, Option, none, some, Bool, true, false, ◌||◌, not, Result, ok, err, exit,
  key_error, if◌then◌else◌,
}
use zynq_rtl_flow.Str.{Text, codes, is_empty, starts_with, ends_with, join}
use zynq_rtl_flow.Effects.{M, ◌>>=◌, return, lift, raise, gets, modify}

-- the arguments of `create_platform_component`; the others are fixed in the script
pub record Platform : Type 0 where
  pub workspace : Text
  pub name : Text
  pub hw_design : Text
  pub cpu : Text

-- what the script asks of the operating system and of the Vitis console
pub record Host : Type 1 where
  pub State : Type 0
  -- `os.environ.get`
  pub environ : Text → Option Text
  -- `create_client`, `set_workspace`, `create_platform_component` and `build`
  pub build : Platform → M State (Unit {0})
  pub isfile : Text → State → Bool
  pub isdir : Text → State → Bool
  -- `shutil.copy2` and `shutil.copytree`
  pub copy2 : Text → Text → M State (Unit {0})
  pub copytree : Text → Text → M State (Unit {0})
  -- `shutil.rmtree` with errors ignored
  pub rmtree : Text → State → State

-- `os.path.join` of two paths
unfoldable pub path_join : Text → Text → Text
unfolding starts_with is_empty ends_with
path_join a b =
    if starts_with (codes "/") b
    then b
    else if is_empty a || ends_with b'/' a
    then a ++ b
    else a ++ codes "/" ++ b

abbrev pub fsbl : Text
fsbl = codes "fsbl.elf"

abbrev pub pmufw : Text
pmufw = codes "pmufw.elf"

-- the variables of the environment
pub record Settings : Type 0 where
  pub xsa : Text
  pub workspace : Text
  pub out_dir : Text
  pub cpu : Text
  pub name : Text

abbrev pub platform_of : Settings → Platform
platform_of c = record { workspace = c.workspace; name = c.name; hw_design = c.xsa; cpu = c.cpu }

unfoldable pub export : Settings → Text
unfolding path_join
export c = path_join (path_join (path_join c.workspace c.name) (codes "export")) c.name

unfoldable pub elf_src : Settings → Text
unfolding export
elf_src c = path_join (path_join (export c) (codes "sw")) (codes "boot")

unfoldable pub sdt_src : Settings → Text
unfolding export
sdt_src c = path_join (path_join (export c) (codes "hw")) (codes "sdt")

unfoldable pub sdt_dst : Settings → Text
unfolding path_join
sdt_dst c = path_join c.out_dir (codes "sdt")

-- the two paths that the build has to have produced
abbrev pub elves : Settings → List Text
elves c = path_join (elf_src c) fsbl ∷ path_join (elf_src c) pmufw ∷ []

abbrev pub not_built : List Text → Text
not_built paths = codes "boot BSP did not build — missing: " ++ join (codes ", ") paths

module _ (host : Host) where
  open host use {State, environ, build, isfile, isdir, copy2, copytree, rmtree}

  -- `os.environ[name]`
  abbrev pub required : Text → Result Text
  required name = elim (environ name) [ none ↦ err key_error | some v ↦ ok v ]

  -- `os.environ.get(name, default)`
  abbrev pub optional : Text → Text → Text
  optional name default = elim (environ name) [ none ↦ default | some v ↦ v ]

  unfoldable pub settings : M State Settings
  settings = lift (required (codes "XSA")) >>= λ xsa.
      lift (required (codes "BOOT_WS")) >>= λ workspace.
      lift (required (codes "BOOT_DIR")) >>= λ out_dir.
      lift (required (codes "BOOT_COMPONENT")) >>= λ name. return (record {
        xsa = xsa;
        workspace = workspace;
        out_dir = out_dir;
        cpu = optional (codes "BOOT_CPU") (codes "psu_cortexa53_0");
        name = name;
      })

  -- `[p for p in paths if not os.path.isfile(p)]`
  unfoldable pub missing : List Text → State → List Text
  missing [] s = []
  missing (p ∷ paths) s = let rest = missing paths s in if isfile p s then rest else p ∷ rest

  -- one round of the copying loop
  unfoldable pub copy_elf : Settings → Text → M State (Unit {0})
  unfolding elf_src path_join
  copy_elf c elf = copy2 (path_join (elf_src c) elf) (path_join c.out_dir elf)

  -- the device tree travels whole, if there is one
  unfoldable pub copy_tree : Settings → M State (Unit {0})
  unfolding sdt_src sdt_dst
  copy_tree c = gets (isdir (sdt_src c)) >>= λ there.
      if there
      then (modify (rmtree (sdt_dst c)) >>= λ _. copytree (sdt_src c) (sdt_dst c))
      else return tt

  unfoldable pub collect : Settings → M State (Unit {0})
  unfolding copy_elf copy_tree
  collect c = copy_elf c fsbl >>= λ _. copy_elf c pmufw >>= λ _. copy_tree c

  -- behind the build
  unfoldable pub check_and_collect : Settings → M State (Unit {0})
  unfolding missing collect join is_empty
  check_and_collect c = gets (missing (elves c)) >>= λ absent.
      if is_empty absent then collect c else raise (exit (not_built absent))

  unfoldable pub boot : M State (Unit {0})
  unfolding settings check_and_collect
  boot = settings >>= λ c. build (platform_of c) >>= λ _. check_and_collect c
