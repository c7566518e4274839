-- ===== src/Buffer/Tests.antt =====
-- A buffer that two chunks were written to.
use ssh2incus.Base.{◌≡◌, refl, List, [], ◌∷◌}
use ssh2incus.Base.Text.{Text, codes, split}
use ssh2incus.Buffer.{scan_lines}
use ssh2incus.Buffer.Laws.{concat}

abbrev chunks : List Text
chunks = codes "ssh-ed25519 A\nssh-" ∷ codes "rsa B\n" ∷ []

scanned : scan_lines (concat chunks) ≡ codes "ssh-ed25519 A" ∷ codes "ssh-rsa B" ∷ []
unfolding scan_lines split
scanned = refl
