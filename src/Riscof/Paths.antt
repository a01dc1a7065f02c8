-- ===== src/Riscof/Paths.antt =====
-- `os.path.join`, `os.path.normpath` and `os.path.abspath` of the POSIX library.
pub mod Laws
use sisrv_platform.Prelude.{
  join_with, ℕ, Bool, true, false, not, ◌&&◌, ◌||◌, List, [], ◌∷◌, ◌++◌, Text, codes, starts_with,
  eq_text, ◌==◌, if◌then◌else◌,
}

-- not a or a.endswith("/")
unfoldable pub ends_open : Text → Bool
ends_open [] = true
ends_open (c ∷ []) = c == b'/'
ends_open (c ∷ d ∷ s) = ends_open (d ∷ s)

abbrev pub is_abs : Text → Bool
is_abs path = starts_with path (b'/' ∷ [])

unfoldable pub join_path : Text → Text → Text
join_path a b = if is_abs b then b else if ends_open a then a ++ b else a ++ b'/' ∷ b

-- path.split("/"), behind what is read of the current part
unfoldable pub split_path : Text → Text → List Text
split_path cur [] = cur ∷ []
split_path cur (c ∷ s) =
    let next = cur ∷ split_path [] s in
    let longer = split_path (cur ++ c ∷ []) s in if c == b'/' then next else longer

-- The parts that are kept, the last one first.
abbrev pub pop_part : List Text → List Text
pop_part [] = []
pop_part (part ∷ parts) = parts

abbrev pub top_is_up : List Text → Bool
top_is_up [] = false
top_is_up (part ∷ parts) = eq_text part (codes "..")

abbrev pub no_parts : List Text → Bool
no_parts [] = true
no_parts (part ∷ parts) = false

unfoldable pub keep_part : Bool → Text → List Text → List Text
keep_part absolute part kept =
    if eq_text part [] || eq_text part (codes ".")
    then kept
    else if not (eq_text part (codes "..")) || (not absolute && no_parts kept) || top_is_up kept
    then part ∷ kept
    else pop_part kept

unfoldable pub keep_parts : Bool → List Text → List Text → List Text
keep_parts absolute [] kept = kept
keep_parts absolute (part ∷ parts) kept = keep_parts absolute parts (keep_part absolute part kept)

abbrev pub reverse_onto {ℓ} : {A : Type ℓ} → List A → List A → List A
reverse_onto [] done = done
reverse_onto (x ∷ xs) done = reverse_onto xs (x ∷ done)

-- Two leading slashes stay two, and three or more are one.
abbrev pub leading : Text → Text
leading path =
    if starts_with path (codes "//") && not (starts_with path (codes "///"))
    then codes "//"
    else if is_abs path
    then codes "/"
    else []

abbrev pub or_dot : Text → Text
or_dot [] = codes "."
or_dot (c ∷ s) = c ∷ s

unfoldable pub norm_path : Text → Text
norm_path path = or_dot (
    leading path
    ++ join_with (codes "/") (reverse_onto (keep_parts (is_abs path) (split_path [] path) []) []))

-- os.path.abspath in a working directory
unfoldable pub abs_path : Text → Text → Text
abs_path cwd path = norm_path (if is_abs path then path else join_path cwd path)
