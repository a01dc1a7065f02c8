-- ===== src/Prelude/Lines.antt =====
-- Text cut into lines and matched from the left, as `str.splitlines`, `str.strip` and the regular
-- expressions of the log parsers do. Character classes are those of ASCII text.
use Prim.Native.Nat.{ℕ}
use mathlib.Core.Path.{◌≡◌, refl}
use mathlib.Core.Bool.{Bool, true, false, ◌&&◌}
use mathlib.Core.List.{List, [], ◌∷◌, ◌++◌, append_assoc, append-nil}
use mathlib.Core.Option.{Option, none, some}
use native.Mathlib.Omega.{arith}
use sisrv_platform.Prelude.Tests.{◌==◌, if◌then◌else◌}
use sisrv_platform.Prelude.Lists.{All}
use sisrv_platform.Prelude.Strings.{Text, is_break, is_space}

-- The lines from a place on, behind the part of the current line that is read; the flag says that
-- a carriage return has just closed a line.
unfoldable pub lines_from : Text → Text → Bool → List Text
lines_from [] [] after_cr = []
lines_from [] (d ∷ cur) after_cr = (d ∷ cur) ∷ []
lines_from (c ∷ s) cur after_cr =
    let joined = lines_from s [] false in
    let closed = cur ∷ lines_from s [] (c == 13) in
    let longer = lines_from s (cur ++ c ∷ []) false in
    if is_break c then (if c == 10 && after_cr then joined else closed) else longer

-- text.splitlines()
unfoldable pub split_lines : Text → List Text
split_lines s = lines_from s [] false

-- The longest prefix of a class, and what stands behind it.
unfoldable pub span : (ℕ → Bool) → Text → Text × Text
span p [] = ([], [])
span p (c ∷ s) = let (run, rest) = span p s in if p c then (c ∷ run, rest) else ([], c ∷ s)

-- One or more characters of a class, as in `\s+`; a shorter run is never right for the expressions
-- here, whose neighbouring classes are disjoint.
abbrev pub nonempty : Text × Text → Option (Text × Text)
nonempty ([], rest) = none
nonempty (c ∷ run, rest) = some (c ∷ run, rest)

unfoldable pub run1 : (ℕ → Bool) → Text → Option (Text × Text)
run1 p s = nonempty (span p s)

-- A literal piece of the expression.
unfoldable pub literal : Text → Text → Option Text
literal [] s = some s
literal (d ∷ p) [] = none
literal (d ∷ p) (c ∷ s) = if c == d then literal p s else none

-- line.strip()
unfoldable pub strip_left : Text → Text
strip_left s = (span is_space s).1

unfoldable pub strip_right : Text → Text
strip_right [] = []
strip_right (c ∷ s) = elim (strip_right s) [
  | [] ↦ if is_space c then [] else c ∷ []
  | d ∷ r ↦ c ∷ d ∷ r
]

unfoldable pub strip : Text → Text
strip s = strip_right (strip_left s)

-- A run that is followed by a character outside the class, or by the end, is the span.
abbrev pub StopsAt : (ℕ → Bool) → Text → Type 0
StopsAt p [] = Unit {0}
StopsAt p (c ∷ s) = p c ≡ false

pub span-append :
    (p : ℕ → Bool) (run rest : Text)
    → All (λ c. p c ≡ true) run
    → StopsAt p rest
    → span p (run ++ rest) ≡ (run, rest)
unfolding span
span-append p [] [] _ _ = refl
span-append p [] (c ∷ rest) _ stop = rw stop
span-append p (c ∷ run) rest (here, more) stop = rw (here, span-append p run rest more stop)

pub run1-append :
    (p : ℕ → Bool) (c : ℕ) (run rest : Text)
    → All (λ c. p c ≡ true) (c ∷ run)
    → StopsAt p rest
    → run1 p ((c ∷ run) ++ rest) ≡ some (c ∷ run, rest)
unfolding run1
run1-append p c run rest every stop = rw (span-append p (c ∷ run) rest every stop)

pub literal-append : (piece rest : Text) → literal piece (piece ++ rest) ≡ some rest
unfolding literal
literal-append [] rest = refl
literal-append (d ∷ p) rest = ground (arith, literal-append p rest)

-- A text with no line break in it.
abbrev pub IsLine : Text → Type 0
IsLine = All (λ c. is_break c ≡ false)

lines_from-append :
    (line s cur : Text)
    → IsLine line
    → lines_from (line ++ 10 ∷ s) cur false ≡ (cur ++ line) ∷ lines_from s [] false
unfolding lines_from
lines_from-append [] s cur _ = rw append-nil
lines_from-append (c ∷ line) s cur (here, more) =
    rw (here, lines_from-append line s (cur ++ c ∷ []) more, append_assoc cur (c ∷ []) line)

-- A line that a newline ends is the first of the lines.
pub split_lines-append :
    (line s : Text) → IsLine line → split_lines (line ++ 10 ∷ s) ≡ line ∷ split_lines s
unfolding split_lines
split_lines-append line s h = lines_from-append line s [] h

pub split_lines-nil : split_lines [] ≡ []
unfolding split_lines lines_from
split_lines-nil = refl

-- Text that begins and ends in a character which is no white space is left alone.
strip_right_solid :
    (c : ℕ) (s : Text) → All (λ d. is_space d ≡ false) (c ∷ s) → strip_right (c ∷ s) ≡ c ∷ s
unfolding strip_right
strip_right_solid c [] (solid, _) = rw solid
strip_right_solid c (d ∷ s) (_, more) = rw (strip_right_solid d s more)

strip_right-append :
    (s : Text) (c : ℕ) (t : Text)
    → All (λ d. is_space d ≡ false) (c ∷ t)
    → strip_right (s ++ c ∷ t) ≡ s ++ c ∷ t
unfolding strip_right
strip_right-append [] c t solid = strip_right_solid c t solid
strip_right-append (d ∷ []) c t solid = rw (strip_right_solid c t solid)
strip_right-append (d ∷ e ∷ s) c t solid = rw (strip_right-append (e ∷ s) c t solid)

strip_left_solid : (b : ℕ) (s : Text) → is_space b ≡ false → strip_left (b ∷ s) ≡ b ∷ s
unfolding strip_left span
strip_left_solid b s h = ground arith

pub strip-append :
    (b : ℕ) (s : Text) (c : ℕ) (t : Text)
    → is_space b ≡ false
    → All (λ d. is_space d ≡ false) (c ∷ t)
    → strip ((b ∷ s) ++ c ∷ t) ≡ (b ∷ s) ++ c ∷ t
unfolding strip
strip-append b s c t first last =
    rw (strip_left_solid b (s ++ c ∷ t) first) (strip_right-append (b ∷ s) c t last)
