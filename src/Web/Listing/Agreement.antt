-- ===== src/Web/Listing/Agreement.antt =====
-- The table, the detailed list and the page of one instance show the same.
use ssh2incus.Base.{◌≡◌, refl, sym, ap, ◌∙◌, List, [], ◌∷◌, ◌++◌}
use ssh2incus.Base.Result.{Result, ok, err}
use ssh2incus.Base.Text.{Text}
use ssh2incus.Web.Addresses.{AddressInfo}
use ssh2incus.Web.Listing.{
  Instance, InstanceState, InstanceInfo, Incus, table_info, detailed_info, add_info, list_project,
  list_answer, list_projects, list_all, connected, list_instances, list_instances_detailed,
}

-- What the table and the detailed list both show.
pub record Row : Type 0 where
  pub name : Text
  pub project : Text
  pub status : Text
  pub type : Text
  pub addresses : List AddressInfo

abbrev pub row : InstanceInfo → Row
row x = record {
  name = x.name;
  project = x.project;
  status = x.status;
  type = x.type;
  addresses = x.addresses;
}

abbrev pub rows : List InstanceInfo → List Row
rows [] = []
rows (x ∷ xs) = row x ∷ rows xs

abbrev pub rows_of : Result (List InstanceInfo) → Result (List Row)
rows_of (err m) = err m
rows_of (ok xs) = ok (rows xs)

rows-append : (xs ys : List InstanceInfo) → rows (xs ++ ys) ≡ rows xs ++ rows ys
rows-append [] ys = refl
rows-append (x ∷ xs) ys = ap (λ l. row x ∷ l) (rows-append xs ys)

module _ (i : Incus) where
  add_info-rows :
      (project : Text) (inst : Instance) (r : Result InstanceState) (xs ys : List InstanceInfo)
      → rows xs ≡ rows ys
      → rows (add_info i (table_info i) project inst r xs)
        ≡ rows (add_info i (detailed_info i []) project inst r ys)
  unfolding table_info detailed_info
  add_info-rows project inst (err m) xs ys h = h
  add_info-rows project inst (ok state) xs ys h =
      ap (λ l. row (table_info i project inst state) ∷ l) h

  list_project-rows :
      (project : Text) (insts : List Instance)
      → rows (list_project i (table_info i) project insts)
        ≡ rows (list_project i (detailed_info i []) project insts)
  unfolding list_project
  list_project-rows project [] = refl
  list_project-rows project (inst ∷ insts) =
      add_info-rows project inst (i.get_instance_state project inst.name) _ _
        (list_project-rows project insts)

  list_answer-rows :
      (project : Text) (r : Result (List Instance))
      → rows (list_answer i (table_info i) project r)
        ≡ rows (list_answer i (detailed_info i []) project r)
  list_answer-rows project (err m) = refl
  list_answer-rows project (ok insts) = list_project-rows project insts

  list_projects-rows :
      (projects : List Text)
      → rows (list_projects i (table_info i) projects)
        ≡ rows (list_projects i (detailed_info i []) projects)
  unfolding list_projects
  list_projects-rows [] = refl
  list_projects-rows (p ∷ ps) =
      rows-append (list_answer i (table_info i) p (i.get_instances p))
        (list_projects i (table_info i) ps)
      ∙ (ap (λ l. l ++ rows (list_projects i (table_info i) ps))
            (list_answer-rows p (i.get_instances p))
          ∙ (ap (λ l. rows (list_answer i (detailed_info i []) p (i.get_instances p)) ++ l)
                (list_projects-rows ps)
              ∙ sym (
                  rows-append (list_answer i (detailed_info i []) p (i.get_instances p))
                    (list_projects i (detailed_info i []) ps))))

  list_all-rows :
      (r : Result (List Text))
      → rows_of (list_all i (table_info i) r) ≡ rows_of (list_all i (detailed_info i []) r)
  list_all-rows (err m) = refl
  list_all-rows (ok projects) = ap ok (list_projects-rows projects)

  connected-rows :
      (r : Result (Unit {0})) (a b : Result (List InstanceInfo))
      → rows_of a ≡ rows_of b
      → rows_of (connected r a) ≡ rows_of (connected r b)
  connected-rows (err m) a b h = refl
  connected-rows (ok u) a b h = h

  -- The table and the detailed list show the same instances in the same order, with the same names,
  -- projects, statuses, types and addresses, or fail with the same error.
  pub list_instances-rows : rows_of (list_instances i) ≡ rows_of (list_instances_detailed i)
  unfolding list_instances list_instances_detailed
  list_instances-rows = connected-rows i.connect _ _ (list_all-rows i.get_projects)
