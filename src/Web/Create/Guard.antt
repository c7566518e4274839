-- ===== src/Web/Create/Guard.antt =====
-- What the web interface creates.
use ssh2incus.Base.{◌≡◌, ◌⊎◌, Bool, true, false, List, [], All}
use ssh2incus.Base.Result.{Result, ok, err}
use ssh2incus.Base.Text.{Text, codes, contains}
use ssh2incus.Incus.{Server, ClientState, Call, default_project}
use ssh2incus.Incus.Project.{IsSynced, InProject}
use ssh2incus.Web.Create.{CreateInstanceRequest, request_params, Handled}

-- The server has answered that there is no such instance.
abbrev pub IsAbsent : Server → Text → Text → Type 0
IsAbsent sv project name =
    (m : Text) × (sv.get_instance project name ≡ err m) × (contains (codes "not found") m ≡ true)

module _ (sv : Server) (named : (p n : Text) → sv.get_project p ≡ ok n → n ≡ p) where
  abbrev Asked : Text → Text → Result Bool × ClientState × List Call → Type 0
  Asked project name t =
      (t.2 ≡ []) × IsSynced t.1 × (t.0 ≡ ok false → IsAbsent sv (default_project project) name)

  -- Calls go to the project of the request, and there are none unless the server has said that the
  -- instance is not there.
  abbrev pub IsGuarded : CreateInstanceRequest → Handled → Type 0
  IsGuarded req t =
      All (InProject sv named (request_params req)) t.2
      × ((t.2 ≡ []) ⊎ IsAbsent sv (default_project req.project) req.name)
