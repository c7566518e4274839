-- ===== src/Shell/Explain.antt =====
-- server/shell.go, explainHandler.
use ssh2incus.Base.{Bool, true, false, not, Option, none, some, List, [], ◌∷◌, ◌++◌}
use ssh2incus.Base.Int.{ℤ, pos}
use ssh2incus.Base.Text.{Text, codes, is_empty, join}
use ssh2incus.Base.Text.Numbers.{show_int}
use ssh2incus.LoginUser.{Login, LoginCreateConfig}
use ssh2incus.LoginUser.Print.{points_true}
use ssh2incus.Shell.Trace.{Trace, ◌>>◌, emit, exit, printed}

abbrev line_if : Bool → Text → Text
line_if true line = line
line_if false line = []

abbrev line_text : Text → Option Text → Text → Text
line_text before none after = []
line_text before (some s) after = before ++ (s ++ after)

abbrev line_int : Text → Option ℤ → Text → Text
unfolding show_int
line_int before none after = []
line_int before (some n) after = before ++ (show_int n ++ after)

-- %v of a slice that is not empty
abbrev line_profiles : List Text → Text
unfolding join
line_profiles [] = []
line_profiles (p ∷ ps) = codes "  Profiles:      [" ++ (join (codes " ") (p ∷ ps) ++ codes "]\r\n")

unfoldable pub explain_create : LoginCreateConfig → Text
unfolding line_int line_profiles
explain_create c =
    codes "Create Instance: true\r\n"
    ++ (line_text (codes "  Image:         ") c.image (codes "\r\n")
        ++ (line_int (codes "  Memory:        ") c.memory (codes " MB\r\n")
            ++ (line_int (codes "  CPU:           ") c.cpu (codes " cores\r\n")
                ++ (line_int (codes "  Disk:          ") c.disk (codes " GB\r\n")
                    ++ (line_if (points_true c.ephemeral)
                          (codes "  Ephemeral:     true (destroyed on poweroff)\r\n")
                        ++ (line_if (points_true c.nesting) (codes "  Nesting:       true\r\n")
                            ++ (line_if (points_true c.privileged)
                                  (codes "  Privileged:    true\r\n")
                                ++ (line_if (points_true c.vm) (codes "  VM:            true\r\n")
                                    ++ line_profiles c.profiles))))))))

unfoldable pub explanation : Login → Text
unfolding explain_create
explanation eu =
    codes "\r\n=== Login String Explanation ===\r\n\n"
    ++ (line_if (not (is_empty eu.remote))
          (codes "Remote:          " ++ (eu.remote ++ codes "\r\n"))
        ++ (codes "Host User:       "
            ++ (eu.user
                ++ (codes "\r\n"
                    ++ (codes "Instance:        "
                        ++ (eu.instance_name
                            ++ (codes "\r\n"
                                ++ (codes "Project:         "
                                    ++ (eu.project
                                        ++ (codes "\r\n"
                                            ++ (codes "Instance User:   "
                                                ++ (eu.instance_user
                                                    ++ (codes "\r\n"
                                                        ++ (line_if eu.persistent (
                                                            codes
                                                            "Persistent:      true (session persists across connections)\n")
                                                            ++ (line_if eu.create_instance
                                                            (explain_create eu.create_config)
                                                            ++ codes "\r\n")))))))))))))))

unfoldable pub explain_handler : Option Login → Trace ⊥
unfolding explanation
explain_handler none = emit (printed (codes "Invalid explain command\r\n")) >> exit (pos 1)
explain_handler (some eu) = emit (printed (explanation eu)) >> exit (pos 0)
