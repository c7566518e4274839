-- ===== src/Incus/OsInfo/Tests.antt =====
-- The os-release file of an Alpine instance.
use ssh2incus.Base.{◌≡◌, refl, none, some, List, [], ◌∷◌, if◌then◌else◌, All}
use ssh2incus.Base.Int.{pos}
use ssh2incus.Base.Result.{ok, err}
use ssh2incus.Base.Text.{codes, text_eq, cut, split, join, contains_byte}
use ssh2incus.Base.Text.Space.{trim_space}
use ssh2incus.Base.Dict.{lookup, insert}
use ssh2incus.Base.Text.Cut.{contains_byte-Lacks}
use ssh2incus.Buffer.{BytesBuffer, new_bytes_buffer, write_all, close, get_lines, scan_lines}
use ssh2incus.Incus.Exec.{Outcome}
use ssh2incus.Incus.OsInfo.{
  trim_left, trim_right, trim_byte, line_of, read_lines, Files, get_os_info, detect_os,
  family_of_id, install_cmd, install_packages, guess_os_name,
}
use ssh2incus.Incus.OsInfo.Release.{
  Written, comment, assign, IsWritten, texts, last_value, lookup-get_os_info,
}

abbrev release : List Written
release =
    comment (codes " Alpine")
    ∷ assign (codes "NAME") (codes "Alpine Linux")
    ∷ assign (codes "ID") (codes "linux")
    ∷ assign (codes "ID") (codes "alpine")
    ∷ []

abbrev file : BytesBuffer
file = close (
    write_all
      (codes "# Alpine\nNAME=\"Alpine Linux\"\nID=\"linux\"\n" ∷ codes "ID=\"alpine\"\n" ∷ [])
      (new_bytes_buffer (λ s. ([], s))))

abbrev files : Files
files path = if text_eq path (codes "/usr/lib/os-release") then ok file else err (codes "not found")

file_lines : (get_lines file).0 ≡ texts release
unfolding get_lines close write_all scan_lines split
file_lines = refl

release-IsWritten : All IsWritten release
unfolding trim_space trim_byte trim_left trim_right contains_byte
release-IsWritten =
    let lacks = contains_byte-Lacks b'=' in
    (
      refl,
      (
        (refl, refl, (λ e. cc), lacks (codes "NAME") refl, refl, refl),
        (
          (refl, refl, (λ e. cc), lacks (codes "ID") refl, refl, refl),
          ((refl, refl, (λ e. cc), lacks (codes "ID") refl, refl, refl), tt),
        ),
      ),
    )

lookup-get_os_info_example :
    lookup (codes "ID") (get_os_info files) ≡ last_value (codes "ID") release
unfolding text_eq
lookup-get_os_info_example =
    lookup-get_os_info files file release (codes "ID") refl file_lines release-IsWritten

last_id : last_value (codes "ID") release ≡ some (codes "alpine")
unfolding last_value text_eq
last_id = refl

abbrev fine : Outcome
fine = record { ret = pos 0; error = none; stdout = [] }

installs :
    install_packages files (λ cmd. fine) (codes "tmux" ∷ [])
    ≡ (ok tt, codes "/bin/sh -c 'apk add --no-cache tmux'" ∷ [])
unfolding install_packages get_os_info detect_os read_lines line_of trim_space trim_byte trim_left
    trim_right cut insert lookup family_of_id text_eq install_cmd join get_lines close write_all
    scan_lines split
installs = refl

-- A field ID_LIKE of one word is not found by GuessOSName.
one_word : guess_os_name ((codes "ID_LIKE", codes "debian") ∷ []) ≡ err (codes "unknown OS")
unfolding guess_os_name lookup text_eq cut
one_word = refl
