-- ===== src/Buffer/Output.antt =====
-- pkg/util/buffer/output.go: OutputBuffer.
use ssh2incus.Base.{◌≡◌, refl, ◌∙◌, List, [], ◌∷◌, ◌++◌}
use ssh2incus.Base.Text.{Text}
use ssh2incus.Buffer.{scan_lines}
use ssh2incus.Buffer.Laws.{concat}
use mathlib.Core.List.{append_assoc, append-nil}

pub record OutputBuffer : Type 0 where
  pub buf : Text
  pub lines : List Text

abbrev pub new_output_buffer : OutputBuffer
new_output_buffer = record { buf = []; lines = [] }

unfoldable pub write : Text → OutputBuffer → OutputBuffer
write p b = record b { buf = b.buf ++ p }

-- The scanner reads the buffer to its end; lines that were read before stay.
unfoldable pub lines : OutputBuffer → List Text × OutputBuffer
unfolding scan_lines
lines b = let read = b.lines ++ scan_lines b.buf in (read, record { buf = []; lines = read })

-- What a program writes, in its order.
unfoldable pub write_all : List Text → OutputBuffer → OutputBuffer
unfolding write
write_all [] b = b
write_all (p ∷ ps) b = write_all ps (write p b)

write_all_lem :
    (ps : List Text) (b : OutputBuffer) → write_all ps b ≡ record b { buf = b.buf ++ concat ps }
unfolding write_all write
write_all_lem [] b = simp append-nil
write_all_lem (p ∷ ps) b = write_all_lem ps (write p b) ∙ simp append_assoc

-- The lines of what was written come behind those that were read before, and a second call gives the
-- same lines again.
pub lines-write_all :
    (ps : List Text) (b : OutputBuffer)
    → b.buf ≡ []
    → let (read, after) = lines (write_all ps b) in
      (read ≡ b.lines ++ scan_lines (concat ps)) × ((lines after).0 ≡ read)
unfolding lines
lines-write_all ps b empty = rw (write_all_lem ps b, empty) (refl, append-nil _)
