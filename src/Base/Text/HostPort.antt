-- ===== src/Base/Text/HostPort.antt =====
-- net.JoinHostPort and net.SplitHostPort.
use Prim.Native.Nat.{ℕ}
use mathlib.Core.Bool.{not, ◌||◌}
use mathlib.Core.Option.{Option, none, some}
use mathlib.Core.List.{[], ◌∷◌, ◌++◌}
use ssh2incus.Base.Tests.{◌==◌, if◌then◌else◌}
use ssh2incus.Base.Text.{Text, codes, cut, contains_byte}
use ssh2incus.Base.Result.{Result, ok, err}

unfoldable pub join_host_port : Text → Text → Text
unfolding contains_byte
join_host_port host port =
    if contains_byte b':' host then b'[' ∷ (host ++ b']' ∷ (b':' ∷ port)) else host ++ b':' ∷ port

-- The text before the last colon, and the text behind it.
abbrev pub at_colon : ℕ → Text → Option (Text × Text) → Option (Text × Text)
at_colon c s (some (a, b)) = some (c ∷ a, b)
at_colon c s none = if c == b':' then some ([], s) else none

unfoldable pub cut_last_colon : Text → Option (Text × Text)
cut_last_colon [] = none
cut_last_colon (c ∷ s) = at_colon c s (cut_last_colon s)

abbrev pub no_brackets : Text → Text → Text → Result (Text × Text)
no_brackets host port rest =
    if contains_byte b'[' rest || contains_byte b']' port
    then err (codes "unexpected bracket in address")
    else ok (host, port)

-- Behind `[`: the first `]` stands just before the last colon.
abbrev pub bracketed : Option (Text × Text) → Result (Text × Text)
bracketed none = err (codes "missing ']' in address")
bracketed (some (host, [])) = err (codes "missing port in address")
bracketed (some (host, c ∷ port)) =
    if not (c == b':')
    then err (codes "missing port in address")
    else if contains_byte b':' port
    then err (codes "too many colons in address")
    else no_brackets host port (host ++ c ∷ port)

abbrev pub unbracketed : Text → Option (Text × Text) → Result (Text × Text)
unbracketed s none = err (codes "missing port in address")
unbracketed s (some (host, port)) =
    if contains_byte b':' host
    then err (codes "too many colons in address")
    else if contains_byte b']' host
    then err (codes "unexpected bracket in address")
    else no_brackets host port s

abbrev pub split_colon : Text → Option (Text × Text) → Result (Text × Text)
split_colon s none = err (codes "missing port in address")
split_colon [] (some hp) = unbracketed [] (some hp)
split_colon (c ∷ s) (some hp) =
    if c == b'[' then bracketed (cut b']' s) else unbracketed (c ∷ s) (some hp)

unfoldable pub split_host_port : Text → Result (Text × Text)
unfolding cut_last_colon contains_byte cut
split_host_port s = split_colon s (cut_last_colon s)
