-- ===== src/Testlist/Pick.antt =====
-- verification/riscof/scripts/filter_testlist.py: the key of one named test is picked out of the
-- test list. `sorted(keys)[0]` is modelled as the least key in the order of code points.
pub mod Order
pub mod Least
pub mod Choice
use sisrv_platform.Prelude.{
  take, sort_by, after_last, text_le, ℕ, Bool, true, false, not, ◌&&◌, ◌||◌, Option, none, some,
  List, [], ◌∷◌, ◌++◌, map, Text, codes, contains, eq_text, ltb, ◌==◌, if◌then◌else◌, keep,
}

unfoldable pub lesser : Text → Text → Text
lesser s t = if text_le s t then s else t

-- sorted(keys)[0], of one key and the others
unfoldable pub least : Text → List Text → Text
least key [] = key
least key (next ∷ keys) = lesser key (least next keys)

-- What a filtered list decides, where it decides: its one key, or the least of several.
unfoldable pub first_choice : List Text → Option Text
first_choice [] = none
first_choice (key ∷ []) = some key
first_choice (key ∷ next ∷ keys) = some (least key (next ∷ keys))

abbrev pub hints : Text
hints = codes "/hints/"

unfoldable pub pick_match : List Text → Text → Option Text
pick_match [] prefer = none
pick_match (key ∷ []) prefer = some key
pick_match (key ∷ next ∷ rest) prefer =
    elim (first_choice (keep (λ k. contains k prefer) (key ∷ next ∷ rest))) [
      | some preferred ↦ some preferred
      | none ↦ elim (first_choice (keep (λ k. not (contains k hints)) (key ∷ next ∷ rest))) [
        | some non_hint ↦ some non_hint
        | none ↦ some (least key (next ∷ rest))
      ]
    ]

-- The part before the last separator; without one, the whole text.
unfoldable pub has_char : ℕ → Text → Bool
has_char sep [] = false
has_char sep (c ∷ s) = c == sep || has_char sep s

unfoldable pub before_last : ℕ → Text → Text
before_last sep [] = []
before_last sep (c ∷ s) =
    let rest = before_last sep s in
    if has_char sep s then c ∷ rest else if c == sep then [] else c ∷ s

unfoldable pub ends_with : Text → Text → Bool
ends_with [] suffix = eq_text [] suffix
ends_with (c ∷ s) suffix = eq_text (c ∷ s) suffix || ends_with s suffix

-- key.rsplit("/", 1)[-1] and its stem
abbrev pub basename : Text → Text
basename key = after_last b'/' key []

abbrev pub stem : Text → Text
stem name = before_last b'.' name

-- The condition under which a key is a match.
unfoldable pub names_test : Text → Text → Bool
names_test test_name key =
    ends_with key (b'/' ∷ test_name)
    || (contains key test_name
        || (eq_text (stem (basename key)) test_name || eq_text (basename key) test_name))

-- The exit status and what is printed: the picked key, or nothing with status 1 and stems.
pub data Outcome : Type 0 where
  found : Text → Outcome
  not_found : List Text → Outcome

-- A list with each text once.
unfoldable pub distinct : List Text → List Text
distinct [] = []
distinct (s ∷ rest) = s ∷ keep (λ t. not (eq_text s t)) (distinct rest)

-- The first twenty stems of the list, which the message gives.
unfoldable pub first_stems : List Text → List Text
first_stems keys = take 20 (sort_by text_le (distinct (map (λ k. stem (basename k)) keys)))

unfoldable pub pick_test : Text → Text → List Text → Outcome
pick_test test_name prefer keys = elim (pick_match (keep (names_test test_name) keys) prefer) [
  | none ↦ not_found (first_stems keys)
  | some key ↦ found key
]
