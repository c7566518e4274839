-- ===== src/Buffer.antt =====
-- pkg/util/buffer/bytes.go: BytesBuffer. The lock is left out, since every operation runs under it or
-- before the buffer is shared. The lines are slices of a bufio.Scanner's buffer of 4096 bytes, which are
-- not copied. Up to 2048 bytes the scanner never moves its buffer, so that the lines stay as they are;
-- of longer texts it may overwrite lines, and may stop early. What it does there is a parameter.
pub mod Laws
pub mod Output
pub mod Tests
use ssh2incus.Base.{
  leb, ℕ, ◌&&◌, Option, none, some, List, [], ◌∷◌, ◌++◌, ◌==◌, if◌then◌else◌, length,
}
use ssh2incus.Base.Text.{Text, is_empty, or_else, split}

-- bufio.ScanLines: a line ends at `\n` or at the end of the text, and loses one `\r` at its end.
unfoldable pub drop_cr : Text → Text
drop_cr [] = []
drop_cr (c ∷ s) = let rest = drop_cr s in if is_empty s && (c == 13) then [] else c ∷ rest

unfoldable pub drop_crs : List Text → List Text
unfolding drop_cr
drop_crs [] = []
drop_crs (l ∷ ls) = drop_cr l ∷ drop_crs ls

-- No line stands behind the last `\n`.
unfoldable pub drop_last_empty : List Text → List Text
drop_last_empty [] = []
drop_last_empty (l ∷ []) = if is_empty l then [] else l ∷ []
drop_last_empty (l ∷ m ∷ ls) = l ∷ drop_last_empty (m ∷ ls)

unfoldable pub scan_lines : Text → List Text
unfolding split drop_crs drop_last_empty
scan_lines s = drop_crs (drop_last_empty (split 10 s))

-- Of a text of more than 2048 bytes: what the slices hold when the scanner has ended, and the bytes
-- that it has not read.
abbrev pub LongScan : Type 0
LongScan = Text → List Text × Text

-- The same of any text.
unfoldable pub scan : LongScan → Text → List Text × Text
unfolding scan_lines
scan long s = if leb (length s) 2048 then (scan_lines s, []) else long s

-- `lines` is none for a nil slice.
pub record BytesBuffer : Type 0 where
  pub long : LongScan
  pub buf : Text
  pub lines : Option (List Text)

abbrev pub new_bytes_buffer : LongScan → BytesBuffer
new_bytes_buffer long = record { long = long; buf = []; lines = some [] }

unfoldable pub write : Text → BytesBuffer → BytesBuffer
write p b = record b { buf = b.buf ++ p }

-- append(b.lines, …); no line appended leaves a nil slice nil.
abbrev pub appended : Option (List Text) → List Text → Option (List Text)
appended none [] = none
appended none (l ∷ ls) = some (l ∷ ls)
appended (some ks) ls = some (ks ++ ls)

-- The scanner reads from the buffer.
unfoldable pub byte_lines : BytesBuffer → BytesBuffer
unfolding scan
byte_lines b =
    let (ls, left) = scan b.long b.buf in record b { buf = left; lines = appended b.lines ls }

unfoldable pub close : BytesBuffer → BytesBuffer
unfolding byte_lines
close b = byte_lines b

abbrev pub lines_or_scan : BytesBuffer → Option (List Text) → List Text × BytesBuffer
unfolding byte_lines
lines_or_scan b (some ls) = (ls, b)
lines_or_scan b none = (or_else (byte_lines b).lines [], byte_lines b)

unfoldable pub get_lines : BytesBuffer → List Text × BytesBuffer
get_lines b = lines_or_scan b b.lines

unfoldable pub bytes : BytesBuffer → Text
bytes b = b.buf

unfoldable pub size : BytesBuffer → ℕ
size b = length b.buf

-- A buffer that was filled by writes, in their order.
unfoldable pub write_all : List Text → BytesBuffer → BytesBuffer
unfolding write
write_all [] b = b
write_all (p ∷ ps) b = write_all ps (write p b)
