-- ===== src/RunTile/Main.antt =====
-- `RUNNERS` and `main` of driver/run-tile.py. What it prints is left out.
pub mod Verdict
pub mod Success
use zynq_rtl_flow.Base.{
  ℕ, List, [], ◌∷◌, ◌++◌, Option, none, some, Bool, true, false, ◌&&◌, not, ◌==◌, Result, ok, err,
  exit, type_error, if◌then◌else◌,
}
use zynq_rtl_flow.Base.Int.{ℤ, pos, sub_ℕ, ◌==ℤ◌}
use zynq_rtl_flow.Str.{Text, codes, text_eq, join, is_empty}
use zynq_rtl_flow.Golden.Rng.{Rng}
use zynq_rtl_flow.Effects.{M, ◌>>=◌, return, lift, raise, finally}
use zynq_rtl_flow.RunTile.Board.{Board}
use zynq_rtl_flow.RunTile.Interrupts.{irq_name, irq_count}
use zynq_rtl_flow.RunTile.Runners.{run_sparse_cnn, run_relu}

pub data Runner : Type 0 where
  sparse_cnn relu : Runner

abbrev pub name_of : Runner → Text
name_of sparse_cnn = codes "sparse_cnn"
name_of relu = codes "relu"

-- the keys of `RUNNERS`, in order
abbrev pub runners : List Runner
runners = sparse_cnn ∷ relu ∷ []

abbrev pub names : List Text
names = name_of sparse_cnn ∷ name_of relu ∷ []

-- `RUNNERS.get(name)`
unfoldable pub runner_named : Text → Option Runner
unfolding text_eq
runner_named name =
    if text_eq name (name_of sparse_cnn)
    then some sparse_cnn
    else if text_eq name (name_of relu)
    then some relu
    else none

-- the message for an argument of plain characters, which `%r` puts in quotes
abbrev pub no_checks : Text → Text
no_checks name = codes "no checks for '" ++ name ++ codes "' — one of: " ++ join (codes ", ") names

abbrev pub name_one : List Text → Text
name_one present =
    codes "name the accelerator to run: "
    ++ join (codes ", ") names
    ++ codes " (found "
    ++ (if is_empty present then codes "none" else join (codes ", ") present)
    ++ codes ")"

abbrev pub no_line : Text
no_line = codes "no " ++ irq_name ++ codes " line in /proc/interrupts — is the overlay loaded?"

abbrev pub device_of : Runner → Text
device_of r = codes "/dev/" ++ name_of r

abbrev pub the_one : List Runner → Result Runner
the_one (r ∷ []) = ok r
the_one [] = err (exit (name_one []))
the_one (r ∷ r' ∷ rs) = err (exit (name_one names))

-- `0 if matched == total and taken else 1`
unfoldable pub exit_code : ℕ → ℕ → ℤ → ℕ
exit_code matched total taken = if matched == total && not (taken ==ℤ pos 0) then 0 else 1

module _ (board : Board) (rng : Rng) where
  open board use {State, exists, interrupts, open_device, close}

  -- `[n for n in RUNNERS if os.path.exists("/dev/" + n)]`
  unfoldable pub present : State → List Runner
  present s =
      (if exists (device_of sparse_cnn) s then sparse_cnn ∷ [] else [])
      ++ (if exists (device_of relu) s then relu ∷ [] else [])

  -- the accelerator to run; `argv` is what stands behind the script's name
  unfoldable pub choose : List Text → M State Runner
  unfolding runner_named present
  choose [] s = (the_one (present s), s)
  choose (name ∷ _) s = elim (runner_named name) [
    | none ↦ (err (exit (no_checks name)), s)
    | some r ↦ (ok r, s)
  ]

  unfoldable pub run : Runner → M State (ℕ × ℕ)
  run sparse_cnn = run_sparse_cnn board rng
  run relu = run_relu board rng

  unfoldable pub count_interrupts : M State (Option ℕ)
  count_interrupts s = (ok (irq_count (interrupts s)), s)

  -- behind the runner: the second count, and the code
  unfoldable pub conclude : ℕ → ℕ × ℕ → M State ℕ
  unfolding count_interrupts exit_code
  conclude before (matched, total) = count_interrupts >>= λ after. elim after [
    | none ↦ raise type_error
    | some n ↦ return (exit_code matched total (sub_ℕ n before))
  ]

  unfoldable pub run_counted : Runner → ℕ → M State ℕ
  unfolding run conclude
  run_counted r before =
      open_device (device_of r) >>= λ _. finally (run r) close >>= λ counts. conclude before counts

  unfoldable pub main : List Text → M State ℕ
  unfolding choose count_interrupts run_counted
  main argv = choose argv >>= λ r. count_interrupts >>= λ before. elim before [
    | none ↦ raise (exit no_line)
    | some n ↦ run_counted r n
  ]
