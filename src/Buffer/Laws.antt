-- ===== src/Buffer/Laws.antt =====
-- What a closed buffer gives back.
use ssh2incus.Base.{◌≤◌, length, ◌≡◌, refl, sym, ◌∙◌, List, [], ◌∷◌, ◌++◌, arith}
use ssh2incus.Base.Text.{Text}
use mathlib.Core.List.{append_assoc, append-nil}
use ssh2incus.Buffer.{
  BytesBuffer, new_bytes_buffer, write, write_all, close, get_lines, bytes, size, byte_lines,
  scan_lines, LongScan, scan,
}

-- Every chunk of a list, one after the other.
abbrev pub concat : List Text → Text
concat [] = []
concat (p ∷ ps) = p ++ concat ps

buf-write_all : (ps : List Text) (b : BytesBuffer) → (write_all ps b).buf ≡ b.buf ++ concat ps
unfolding write_all write
buf-write_all [] b = sym (append-nil b.buf)
buf-write_all (p ∷ ps) b = buf-write_all ps (write p b) ∙ append_assoc b.buf p (concat ps)

lines-write_all : (ps : List Text) (b : BytesBuffer) → (write_all ps b).lines ≡ b.lines
unfolding write_all write
lines-write_all [] b = refl
lines-write_all (p ∷ ps) b = lines-write_all ps (write p b)

long-write_all : (ps : List Text) (b : BytesBuffer) → (write_all ps b).long ≡ b.long
unfolding write_all write
long-write_all [] b = refl
long-write_all (p ∷ ps) b = long-write_all ps (write p b)

scan-short : (long : LongScan) (s : Text) → length s ≤ 2048 → scan long s ≡ (scan_lines s, [])
unfolding scan
scan-short long s h = ground arith

-- After writes of at most 2048 bytes and a close, a new buffer gives the lines of all that was written,
-- as often as it is asked, but no bytes and the size 0: scanning for lines has read the bytes away.
pub close-write_all :
    (long : LongScan) (ps : List Text)
    → length (concat ps) ≤ 2048
    → (get_lines (close (write_all ps (new_bytes_buffer long))))
        ≡ (scan_lines (concat ps), close (write_all ps (new_bytes_buffer long)))
      × (bytes (close (write_all ps (new_bytes_buffer long))) ≡ [])
      × (size (close (write_all ps (new_bytes_buffer long))) ≡ 0)
unfolding get_lines close byte_lines bytes size
close-write_all long ps short =
    let b = new_bytes_buffer long in
    rw
      (
        lines-write_all ps b,
        buf-write_all ps b,
        long-write_all ps b,
        scan-short long (concat ps) short,
      )
      (refl, refl, refl)
