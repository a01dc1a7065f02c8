-- ===== src/Riscof/Format/Pieces.antt =====
-- A template as pieces: plain text and numbered fields.
use sisrv_platform.Prelude.{
  ℕ, ◌+◌, ◌<◌, ◌≡◌, refl, ◌∙◌, ap, Bool, true, false, not, ◌&&◌, Option, none, some, List, [], ◌∷◌,
  ◌++◌, Text, ok, get_elem?, ◌==◌, all, All, arith,
}
use sisrv_platform.Riscof.Format.{format, format_from, plain}
use sisrv_platform.Riscof.Format.Laws.{IsPlain, put_before, format_from-plain, format_from-field}

pub data Piece : Type 0 where
  said : Text → Piece
  field : ℕ → Piece

abbrev pub template_of : List Piece → Text
template_of [] = []
template_of (said s ∷ pieces) = s ++ template_of pieces
template_of (field n ∷ pieces) = b'{' ∷ (b'0' + n) ∷ b'}' ∷ template_of pieces

-- The pieces with the fields filled in.
abbrev pub filled : List Text → List Piece → Text
filled args [] = []
filled args (said s ∷ pieces) = s ++ filled args pieces
filled args (field n ∷ pieces) = elim (get_elem? args n) [
  | none ↦ filled args pieces
  | some arg ↦ arg ++ filled args pieces
]

abbrev pub is_some : Option Text → Bool
is_some none = false
is_some (some arg) = true

-- Plain text, and a field of one digit that has an argument.
abbrev pub FitsPiece : List Text → Piece → Type 0
FitsPiece args (said s) = IsPlain s
FitsPiece args (field n) = (n < 10) × (is_some (get_elem? args n) ≡ true)

pub format_lem :
    (args : List Text) (pieces : List Piece)
    → All (FitsPiece args) pieces
    → format (template_of pieces) args ≡ ok (filled args pieces)
unfolding format
format_lem args [] _ = unfold format_from in refl
format_lem args (said s ∷ pieces) (p, ps) =
    format_from-plain args s (template_of pieces) p ∙ ap (put_before s) (format_lem args pieces ps)
format_lem args (field n ∷ pieces) ((d, there), ps) =
    argument (get_elem? args n) refl (format_lem args pieces ps)
  where
    argument :
        (o : Option Text)
        → get_elem? args n ≡ o
        → format_from args plain (template_of pieces) ≡ ok (filled args pieces)
        → format_from args plain (template_of (field n ∷ pieces))
          ≡ ok (filled args (field n ∷ pieces))
    argument none e _ = ground (arith, e, there)
    argument (some arg) e rest =
        format_from-field args n (template_of pieces) d e
        ∙ ap (put_before arg) rest
        ∙ rw (filled, e) refl

-- Whether a text is plain is computed.
pub IsPlain-of_all : (s : Text) → all (λ c. not (c == b'{') && not (c == b'}')) s ≡ true → IsPlain s
IsPlain-of_all [] _ = tt
IsPlain-of_all (c ∷ s) h = ground (arith, IsPlain-of_all s)
