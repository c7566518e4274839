-- ===== src/CreateConfig/Load/Fallback.antt =====
-- Which file a config is loaded from.
use ssh2incus.Base.{◌≡◌, refl, ◌↔◌, ◌⊎◌, inl, inr, List, [], ◌∷◌}
use ssh2incus.Base.Result.{ok, err, Result-cases}
use ssh2incus.Base.Text.{Text, codes}
use ssh2incus.CreateConfig.{CreateConfig}
use ssh2incus.CreateConfig.Maps.{Store}
use ssh2incus.CreateConfig.Load.{
  Host, load_create_config, absolute_paths, try_paths, load_create_config_with_fallback,
}

-- The first of the paths that loads.
abbrev pub IsFirst : Host → Store → List Text → CreateConfig × Store → Type 0
IsFirst h s [] r = ⊥
IsFirst h s (p ∷ ps) r =
    (load_create_config h p s ≡ ok r)
    ⊎ (((m : Text) × (load_create_config h p s ≡ err m)) × IsFirst h s ps r)

try_paths_iff :
    (h : Host) (s : Store) (ps : List Text) (m : Text) (r : CreateConfig × Store)
    → (try_paths h s ps m ≡ ok r) ↔ IsFirst h s ps r
unfolding try_paths
try_paths_iff h s [] m r = ((λ e. cc), (λ e. absurd e))
try_paths_iff h s (p ∷ ps) m r = elim (Result-cases (load_create_config h p s)) [
  | inl found ↦ let (a, e) = found in rw e ((λ k. inl k), (λ k. elim k [ inl k ↦ k | inr k ↦ cc ]))
  | inr failed ↦
      let (m', e) = failed in
      let (to, from) = try_paths_iff h s ps m' r in
      rw e ((λ k. inr ((m', refl), to k)), (λ k. elim k [ inl k ↦ cc | inr k ↦ from k.1 ]))
]

-- The config that is loaded is the one of the first path, made absolute, from which a config loads;
-- there is an error exactly if there is no such path.
pub load_create_config_with_fallback_iff :
    (h : Host) (paths : List Text) (s : Store) (r : CreateConfig × Store)
    → (load_create_config_with_fallback h paths s ≡ ok r)
      ↔ IsFirst h s (absolute_paths h.getwd paths) r
unfolding load_create_config_with_fallback
load_create_config_with_fallback_iff h paths s r =
    try_paths_iff h s (absolute_paths h.getwd paths) (codes "<nil>") r
