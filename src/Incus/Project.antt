-- ===== src/Incus/Project.antt =====
-- Which project the client's calls go to.
use ssh2incus.Base.{
  ◌≡◌, ◌≢◌, refl, sym, ◌∙◌, ◌⊎◌, inl, inr, Bool, true, false, List, [], ◌∷◌, if◌then◌else◌, All,
  arith,
}
use ssh2incus.Base.Result.{Result, ok, err}
use ssh2incus.Base.Text.{Text, codes, text_eq}
use mathlib.Core.List.{append-nil}
use ssh2incus.Base.Text.Laws.{text_eq_iff}
use ssh2incus.Base.Dict.{Dict, lookup}
use ssh2incus.Base.{some, ◌&&◌, ◌++◌}
use ssh2incus.Base.Int.{positive}
use ssh2incus.Base.Text.Numbers.{show_int}
use ssh2incus.Incus.Limits.{is_security_key}
use ssh2incus.Shell.Create.{CreateInstanceParams}
use ssh2incus.Incus.{
  ◌>>=◌, ◌>>◌, Server, ClientState, Call, created_from_image, started, continue, default_project,
  use_named, use_project, ask_instance, get_instance, post_of, Method, create_checked,
  create_instance, start_unless, find_image, with_calls, send_create, InstancesPost, with_root_size,
  merge_devices,
}

-- The server uses the project that the client remembers, once it remembers one.
abbrev pub IsSynced : ClientState → Type 0
IsSynced st = (st.project ≡ st.used) ⊎ (st.project ≡ [])

-- The request for an instance: its name, kind and image, each key of its configuration, its devices, and
-- whether it is ephemeral.
pub record IsRequest (p : CreateInstanceParams) (profile : Dict (Dict Text)) (post : InstancesPost)
    : Type 0 where
  pub name : post.name ≡ p.name
  pub is_vm : post.is_vm ≡ p.vm
  pub alias : post.alias ≡ p.image
  pub ephemeral : post.ephemeral ≡ p.ephemeral
  pub config :
      (k : Text)
      → lookup k post.config ≡ (
          if positive p.cpu && text_eq (codes "limits.cpu") k
          then some (show_int p.cpu)
          else if positive p.memory && text_eq (codes "limits.memory") k
          then some (show_int p.memory ++ codes "GiB")
          else if is_security_key p k
          then some (codes "true")
          else lookup k p.config)
  pub devices : post.devices ≡ with_root_size p (merge_devices profile p.devices)

module _ (sv : Server) (named : (p n : Text) → sv.get_project p ≡ ok n → n ≡ p) where
  default_project-ne-nil : (p : Text) → default_project p ≢ []
  default_project-ne-nil [] e = cc
  default_project-ne-nil (c ∷ p) e = cc

  -- What a switch of projects leaves: its success puts the server in the project.
  abbrev pub Switched : Text → Result (Unit {0}) × ClientState × List Call → Type 0
  Switched p t =
      (t.2 ≡ [])
      × IsSynced t.1
      × (((t.0 ≡ ok tt) × (t.1.used ≡ default_project p))
          ⊎ ((m : Text) × (t.0 ≡ err m) × (sv.get_project (default_project p) ≡ err m)))

  use_named-Switched :
      (p : Text) (st : ClientState) (r : Result Text)
      → IsSynced st
      → sv.get_project (default_project p) ≡ r
      → Switched p (use_named r st)
  use_named-Switched p st (err m) h e = (refl, h, inr (m, refl, e))
  use_named-Switched p st (ok n) h e = (refl, inl refl, inl (refl, named (default_project p) n e))

  use_project-if :
      (p : Text) (st : ClientState) (b : Bool)
      → IsSynced st
      → text_eq (default_project p) st.project ≡ b
      → Switched p
          (if b then (ok tt, st, []) else use_named (sv.get_project (default_project p)) st)
  use_project-if p st false h e =
      use_named-Switched p st (sv.get_project (default_project p)) h refl
  use_project-if p st true (inl synced) e = (
    refl,
    inl synced,
    inl (refl, sym synced ∙ sym ((text_eq_iff (default_project p) st.project).0 e)),
  )
  use_project-if p st true (inr fresh) e =
      absurd (default_project-ne-nil p ((text_eq_iff (default_project p) st.project).0 e ∙ fresh))

  pub use_project-Switched :
      (p : Text) (st : ClientState) → IsSynced st → Switched p (use_project sv p st)
  unfolding use_project
  use_project-Switched p st h = use_project-if p st (text_eq (default_project p) st.project) h refl

  abbrev pub InProject : CreateInstanceParams → Call → Type 0
  InProject p (created_from_image q post) =
      (q ≡ default_project p.project)
      × ((profile : Dict (Dict Text)) × (sv.get_profile (default_project p.project) ≡ ok profile)
          × IsRequest p profile post)
  InProject p (started q n) = (q ≡ default_project p.project) × (n ≡ p.name)

  -- The answer about an instance is the one of the named project, where an empty name is `default`,
  -- or the error about that project; nothing is changed in Incus, and the client stays in step.
  pub get_instance-project :
      (project name : Text) (st : ClientState)
      → IsSynced st
      → (((get_instance sv project name st).0 ≡ sv.get_instance (default_project project) name)
          ⊎ ((m : Text) × ((get_instance sv project name st).0 ≡ err m)
              × (sv.get_project (default_project project) ≡ err m)))
        × IsSynced (get_instance sv project name st).1
        × ((get_instance sv project name st).2 ≡ [])
  unfolding get_instance
  get_instance-project project name st h =
      asked (use_project sv project st) (use_project-Switched project st h)
    where
      asked :
          (t : Result (Unit {0}) × ClientState × List Call)
          → Switched project t
          → (((continue (λ _. ask_instance sv name) t).0
                ≡ sv.get_instance (default_project project) name)
              ⊎ ((m : Text) × ((continue (λ _. ask_instance sv name) t).0 ≡ err m)
                  × (sv.get_project (default_project project) ≡ err m)))
            × IsSynced (continue (λ _. ask_instance sv name) t).1
            × ((continue (λ _. ask_instance sv name) t).2 ≡ [])
      asked (ok u, st', cs) s = ground (arith, append-nil cs)
      asked (err m, st', cs) s = ground arith

  module _ (p : CreateInstanceParams) where
    -- In step, and in the project of the parameters.
    abbrev IsIn : ClientState → Type 0
    IsIn st = IsSynced st × (st.used ≡ default_project p.project)

    abbrev Quiet {ℓ} : {A : Type ℓ} → Method A → Type 0
    Quiet m = (st : ClientState) → IsIn st → All (InProject p) (m st).2

    abbrev Stays {ℓ} : {A : Type ℓ} → Method A → Type 0
    Stays m = (st : ClientState) → IsIn st → All (InProject p) (m st).2 × IsIn (m st).1

    -- The rest of CreateInstance, with the default profile that was read.
    unfoldable with_profile : Dict (Dict Text) → Method Text
    with_profile profile = find_image sv p >>= λ image.
        send_create sv (post_of p profile)
        >> (start_unless p.init_only sv p.name >> get_instance sv p.project p.name)

with_calls-nil {ℓ} : {A : Type ℓ} (t : Result A × ClientState × List Call) → with_calls [] t ≡ t
with_calls-nil (r, st, cs) = refl

-- The test for an existing instance asks for the project that is named like the instance: where there
-- is no such project, CreateInstance never refuses, whatever instances exist.
pub create_instance-unchecked :
    (sv : Server) (p : CreateInstanceParams) (st : ClientState) (m : Text)
    → text_eq (default_project p.name) st.project ≡ false
    → sv.get_project (default_project p.name) ≡ err m
    → create_instance sv p st ≡ create_checked sv p st
unfolding create_instance get_instance use_project
create_instance-unchecked sv p st m other missing = rw (other, missing) (with_calls-nil _)
