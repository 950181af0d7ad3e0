-- ===== src/Boot/Outcome.antt =====
-- What a run of flows/embedded/boot.py that ends in success has done.
use mathlib.Core.Path.{subst}
use zynq_rtl_flow.Base.{true, ok, ◌≡◌, sym, ap, ◌∙◌, arith}
use zynq_rtl_flow.Effects.{M, ◌>>=◌}
use zynq_rtl_flow.Effects.Laws.{bind-eq-ok}
use zynq_rtl_flow.Boot.{
  Host, Settings, platform_of, fsbl, pmufw, path_join, elf_src, settings, collect,
  check_and_collect, boot,
}

-- what follows the settings
abbrev behind : (host : Host) → Settings → M host.State (Unit {0})
behind host c = host.build (platform_of c) >>= λ _. check_and_collect host c

module _ (host : Host) where
  open host use {State, build, isfile}

  collects :
      (c : Settings) (s t : State)
      → check_and_collect host c s ≡ (ok tt, t)
      → (isfile (path_join (elf_src c) fsbl) s ≡ true)
        × (isfile (path_join (elf_src c) pmufw) s ≡ true)
        × (collect host c s ≡ (ok tt, t))
  unfolding check_and_collect
  collects c s t h = ground arith

  -- What a run that ends well went through: the settings, the state that the build left, and the
  -- two ELFs there.
  pub record Booted (s t : State) : Type 0 where
    pub config : Settings
    pub built : State
    pub configured : settings host s ≡ (ok config, s)
    pub builds : build (platform_of config) s ≡ (ok tt, built)
    pub has_fsbl : isfile (path_join (elf_src config) fsbl) built ≡ true
    pub has_pmufw : isfile (path_join (elf_src config) pmufw) built ≡ true
    pub collected : collect host config built ≡ (ok tt, t)

  settings_keep : (s : State) → (settings host s).1 ≡ s
  unfolding settings
  settings_keep s = ground arith

  -- A run ends well only if the environment has its settings, the build succeeds, both ELFs are
  -- files in the state that it left, and the collection from that state succeeds and ends the run.
  pub boot_success : (s t : State) → boot host s ≡ (ok tt, t) → Booted s t
  unfolding boot
  boot_success s t h =
      let (c, u, p, k) = bind-eq-ok (settings host) (behind host) h in
      let (_, v, q, l) = bind-eq-ok (build (platform_of c)) (λ _. check_and_collect host c) k in
      let (f, g, r) = collects c v t l in
      let same : u ≡ s = sym (ap (λ x. x.1) p) ∙ settings_keep s in
      record {
        config = c;
        built = v;
        configured = rw same at p;
        builds = subst (λ x. build (platform_of c) x ≡ (ok tt, v)) same q;
        has_fsbl = f;
        has_pmufw = g;
        collected = r;
      }
