-- ===== src/Riscof/Paths/Laws.antt =====
-- Normalised paths, and climbing with "..".
use sisrv_platform.Prelude.{
  join_with, ℕ, ◌≡◌, refl, ◌∙◌, ap, sym, Bool, true, false, List, [], ◌∷◌, ◌++◌, append_assoc,
  append-nil, Text, codes, eq_text, ◌==◌, All, arith,
}
use sisrv_platform.Riscof.Paths.{
  ends_open, is_abs, join_path, split_path, keep_part, keep_parts, reverse_onto, norm_path, leading,
}

-- The name of a file or directory: not empty, no slash in it, and neither "." nor "..".
pub record IsName (part : Text) : Type 0 where
  pub some_text : eq_text part [] ≡ false
  pub no_slash : All (λ c. (c == b'/') ≡ false) part
  pub not_here : eq_text part (codes ".") ≡ false
  pub not_up : eq_text part (codes "..") ≡ false

-- The path of names from the root.
unfoldable pub path_of_names : List Text → Text
path_of_names [] = []
path_of_names (part ∷ parts) = b'/' ∷ (part ++ path_of_names parts)

abbrev pub NoSlash : Text → Type 0
NoSlash = All (λ c. (c == b'/') ≡ false)

split_path-names :
    (cur part : Text) (parts : List Text)
    → NoSlash part
    → All NoSlash parts
    → split_path cur (part ++ path_of_names parts) ≡ (cur ++ part) ∷ parts
unfolding split_path path_of_names
split_path-names cur [] [] _ _ = rw append-nil
split_path-names cur [] (part ∷ parts) _ (p, more) =
    rw (append-nil, split_path-names [] part parts p more)
split_path-names cur (c ∷ part) parts (p, more) rest =
    rw (p, split_path-names (cur ++ c ∷ []) part parts more rest, append_assoc cur (c ∷ []) part)

split_path-path :
    (parts : List Text) → All NoSlash parts → split_path [] (path_of_names parts) ≡ [] ∷ parts
split_path-path parts h = split_path-names [] [] parts tt h

keep_part-name :
    (absolute : Bool) (part : Text) (kept : List Text)
    → IsName part
    → keep_part absolute part kept ≡ part ∷ kept
unfolding keep_part
keep_part-name absolute part kept h = rw (h.some_text, h.not_here, h.not_up)

pub keep_parts-names :
    (absolute : Bool) (parts kept : List Text)
    → All IsName parts
    → keep_parts absolute parts kept ≡ reverse_onto parts kept
unfolding keep_parts
keep_parts-names absolute [] kept _ = refl
keep_parts-names absolute (part ∷ parts) kept (p, more) =
    rw (keep_part-name absolute part kept p) (keep_parts-names absolute parts (part ∷ kept) more)

pub keep_parts-append :
    (absolute : Bool) (parts more kept : List Text)
    → keep_parts absolute (parts ++ more) kept
      ≡ keep_parts absolute more (keep_parts absolute parts kept)
unfolding keep_parts
keep_parts-append absolute [] more kept = refl
keep_parts-append absolute (part ∷ parts) more kept =
    keep_parts-append absolute parts more (keep_part absolute part kept)

-- ".." takes the last name off.
pub keep_part-up :
    (part : Text) (kept : List Text)
    → IsName part
    → keep_part true (codes "..") (part ∷ kept) ≡ kept
unfolding keep_part
keep_part-up part kept h = rw (h.not_up)

-- A part of a path that is given: not empty, and with no slash in it.
abbrev pub Solid : Text → Type 0
Solid part = (eq_text part [] ≡ false) × All (λ c. (c == b'/') ≡ false) part

pub Solid-of_IsName : (part : Text) → IsName part → Solid part
Solid-of_IsName part h = (h.some_text, h.no_slash)

ends_open-append : (s : Text) (c : ℕ) (t : Text) → ends_open (s ++ c ∷ t) ≡ ends_open (c ∷ t)
unfolding ends_open
ends_open-append [] c t = refl
ends_open-append (d ∷ []) c t = refl
ends_open-append (d ∷ e ∷ s) c t = ends_open-append (e ∷ s) c t

ends_open-Solid : (c : ℕ) (s : Text) → NoSlash (c ∷ s) → ends_open (c ∷ s) ≡ false
unfolding ends_open
ends_open-Solid c [] (p, _) = p
ends_open-Solid c (d ∷ s) (_, more) = ends_open-Solid d s more

ends_open-names :
    (part : Text) (parts : List Text)
    → Solid part
    → All Solid parts
    → ends_open (path_of_names (part ∷ parts)) ≡ false
unfolding path_of_names
ends_open-names [] parts h _ = cc
ends_open-names (c ∷ part) [] (_, h) _ =
    rw append-nil (ends_open-append (b'/' ∷ []) c part ∙ ends_open-Solid c part h)
ends_open-names (c ∷ part) (next ∷ parts) _ (h, more) =
    ends_open-append (b'/' ∷ c ∷ part) b'/' (next ++ path_of_names parts)
    ∙ ends_open-names next parts h more

path_of_names-append :
    (parts more : List Text)
    → path_of_names (parts ++ more) ≡ path_of_names parts ++ path_of_names more
unfolding path_of_names
path_of_names-append [] more = refl
path_of_names-append (part ∷ parts) more =
    rw (
      path_of_names-append parts more,
      append_assoc part (path_of_names parts) (path_of_names more),
    )

is_abs-Solid : (part : Text) → Solid part → is_abs part ≡ false
is_abs-Solid [] h = refl
is_abs-Solid (c ∷ part) (_, (p, _)) = ground arith

-- Joining one part to a path of parts.
pub join_path-part :
    (part : Text) (parts : List Text) (last : Text)
    → Solid part
    → All Solid parts
    → Solid last
    → join_path (path_of_names (part ∷ parts)) last ≡ path_of_names ((part ∷ parts) ++ last ∷ [])
unfolding join_path
join_path-part part parts last p ps l =
    let one : path_of_names (last ∷ []) ≡ b'/' ∷ last = unfold path_of_names in rw append-nil in
    rw (is_abs-Solid last l, ends_open-names part parts p ps)
      (sym (
        path_of_names-append (part ∷ parts) (last ∷ [])
        ∙ ap (λ (t : Text). path_of_names (part ∷ parts) ++ t) one))

join_with-slash :
    (part : Text) (parts : List Text)
    → b'/' ∷ join_with (codes "/") (part ∷ parts) ≡ path_of_names (part ∷ parts)
unfolding join_with path_of_names
join_with-slash part [] = rw append-nil
join_with-slash part (next ∷ parts) =
    ap (λ (t : Text). b'/' ∷ (part ++ t)) (join_with-slash next parts)

pub leading-names :
    (part : Text) (parts : List Text)
    → Solid part
    → (leading (path_of_names (part ∷ parts)) ≡ codes "/")
      × (is_abs (path_of_names (part ∷ parts)) ≡ true)
unfolding path_of_names
leading-names [] parts h = cc
leading-names (c ∷ part) parts (_, (p, _)) = (rw p, refl)

-- A path of parts is normalised by its parts.
pub norm_path-parts :
    (part : Text) (parts : List Text) (name : Text) (names : List Text)
    → Solid part
    → All NoSlash parts
    → reverse_onto (keep_parts true (part ∷ parts) []) [] ≡ name ∷ names
    → norm_path (path_of_names (part ∷ parts)) ≡ path_of_names (name ∷ names)
unfolding norm_path
norm_path-parts part parts name names p ps h =
    let (one_slash, absolute) = leading-names part parts p in
    let split : split_path [] (path_of_names (part ∷ parts)) ≡ [] ∷ part ∷ parts =
      split_path-path (part ∷ parts) (p.1, ps) in
    let kept : keep_parts true ([] ∷ part ∷ parts) [] ≡ keep_parts true (part ∷ parts) [] =
      unfold keep_parts keep_part in refl in
    rw (one_slash, absolute, split, kept, h) (join_with-slash name names)
