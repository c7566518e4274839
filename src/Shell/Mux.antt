-- ===== src/Shell/Mux.antt =====
-- server/term-mux.go: the commands of the terminal multiplexers.

use ssh2incus.Base.{Bool, false, ◌||◌, List, [], ◌∷◌, ◌++◌, if◌then◌else◌}
use ssh2incus.Base.Result.{Result, ok, err}
use ssh2incus.Base.Text.{Text, codes, text_eq, contains}

pub record TermMux : Type 0 where
  pub mux : Text
  pub session : Text
  pub list_command : Text
  pub new_before : Text
  pub new_after : Text
  pub attach_before : Text
  pub bin_with_prefix : Bool

-- A format of the table is what stands before and after its %s.
unfoldable pub new_term_mux : Text → Text → Bool → Result TermMux
new_term_mux mux session prefix =
    if text_eq mux (codes "tmux")
    then ok (record {
      mux = mux;
      session = session;
      list_command = codes "ls";
      new_before = codes "new -s ";
      new_after = codes " -d";
      attach_before = codes "a -t ";
      bin_with_prefix = prefix;
    })
    else if text_eq mux (codes "screen")
    then ok (record {
      mux = mux;
      session = session;
      list_command = codes "-ls";
      new_before = codes "-dmS ";
      new_after = [];
      attach_before = codes "-r ";
      bin_with_prefix = prefix;
    })
    else err (codes "unsupported mux")

unfoldable pub mux_name : TermMux → Text
mux_name t = if t.bin_with_prefix then t.session ++ (codes "-" ++ t.mux) else t.mux

unfoldable pub list : TermMux → Text
unfolding mux_name
list t = mux_name t ++ (codes " " ++ t.list_command)

unfoldable pub new_command : TermMux → Text
unfolding mux_name
new_command t = mux_name t ++ (codes " " ++ (t.new_before ++ (t.session ++ t.new_after)))

unfoldable pub attach : TermMux → Text
unfolding mux_name
attach t = mux_name t ++ (codes " " ++ (t.attach_before ++ t.session))

unfoldable pub session_exists : TermMux → List Text → Bool
unfolding contains
session_exists t [] = false
session_exists t (l ∷ ls) =
    contains (t.session ++ codes ":") l
    || contains (codes "." ++ t.session) l
    || session_exists t ls
