-- ===== src/Tests/Fixtures.antt =====
-- A random generator, a board and a build host for the tests.
use zynq_rtl_flow.Base.{
  ℕ, zero, suc, ◌+◌, List, [], ◌∷◌, ◌++◌, Bool, true, false, Option, none, some, arith, All,
  replicate, length-replicate, ok, if◌then◌else◌,
}
use zynq_rtl_flow.Base.Int.{ℤ, pos, ◌≤ℤ◌, ◌+ℤ◌}
use zynq_rtl_flow.Golden.Rng.{Rng}
use zynq_rtl_flow.Golden.SparseMac.{golden_from}
use zynq_rtl_flow.Str.{Text, codes, decimal, text_eq}
use zynq_rtl_flow.RunTile.Bytes.RoundTrip.{operands_of, result_bytes}
use zynq_rtl_flow.RunTile.Board.{Board}
use zynq_rtl_flow.Boot.{Host}

-- a generator that always draws the lowest number, and no zeros
pub replicate_bounds :
    (lo hi : ℤ) (n : ℕ)
    → lo +ℤ pos 1 ≤ℤ hi
    → All (λ z. (lo ≤ℤ z) × (z +ℤ pos 1 ≤ℤ hi)) (replicate n lo)
replicate_bounds lo hi zero h = tt
replicate_bounds lo hi (suc n) h = ((ground arith, h), replicate_bounds lo hi n h)

abbrev pub lowest : Rng
lowest = record {
  State = Unit;
  default_rng = λ _. tt;
  integers = λ lo _ n s. (replicate n lo, s);
  below = λ n _ s. (replicate n false, s);
  length-integers = λ lo _ n _. length-replicate n lo;
  integers_bounds = λ lo hi n _ h. replicate_bounds lo hi n h;
  length-below = λ n _ _. length-replicate n false;
}

-- a device that answers a tile of operands with its golden result and raises one interrupt
pub record Device : Type 0 where
  pub raised : ℕ
  pub answer : List ℕ

abbrev pub answer_of : ℤ × ℕ → List ℕ
answer_of (acc, skip) = result_bytes acc skip

abbrev pub sparse_board : Board
sparse_board = record {
  State = Device;
  exists = λ path _. text_eq path (codes "/dev/sparse_cnn");
  interrupts = λ s. codes " 45: " ++ decimal s.raised ++ codes " GICv2 xilinx-dma-controller\n";
  open_device = λ _ s. (ok tt, s);
  write = λ bytes s. (
    ok tt,
    record {
      raised = s.raised + 1;
      answer = answer_of (golden_from (pos 0) 0 (operands_of bytes));
    },
  );
  read = λ _ s. (ok s.answer, s);
  close = λ s. s;
  write_slope = λ _ s. (ok tt, s);
}

abbrev pub idle : Device
idle = record { raised = 0; answer = [] }

-- a host whose build leaves the files of the list
abbrev pub listed : Text → List Text → Bool
listed path [] = false
listed path (p ∷ paths) = if text_eq path p then true else listed path paths

abbrev pub variable : Text → Option Text
variable name =
    if text_eq name (codes "XSA")
    then some (codes "top.xsa")
    else if text_eq name (codes "BOOT_WS")
    then some (codes "/ws")
    else if text_eq name (codes "BOOT_DIR")
    then some (codes "/out")
    else if text_eq name (codes "BOOT_COMPONENT")
    then some (codes "plat")
    else none

abbrev pub host_building : List Text → Host
host_building files = record {
  State = List Text;
  environ = variable;
  build = λ _ _. (ok tt, files);
  isfile = listed;
  isdir = listed;
  copy2 = λ _ dst s. (ok tt, dst ∷ s);
  copytree = λ _ dst s. (ok tt, dst ∷ s);
  rmtree = λ _ s. s;
}
