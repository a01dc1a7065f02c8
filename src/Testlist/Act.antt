-- ===== src/Testlist/Act.antt =====
-- verification/riscof/scripts/filter_act_testlist.py. The test list is the dictionary that the YAML
-- library reads: its keys with their entries, of which the script reads the test path alone.
pub mod Counts
use sisrv_platform.Prelude.{
  join_with, sort_by, text_le, format_dec, ℕ, suc, ◌+◌, ◌-◌, Bool, true, false, Option, none, some,
  List, [], ◌∷◌, ◌++◌, map, Text, codes, contains, eq_text, ◌==◌, if◌then◌else◌, any, length,
}

abbrev pub exclude_path_parts : List Text
exclude_path_parts =
    codes "/pmp/"
    ∷ codes "/A/"
    ∷ codes "/privilege/"
    ∷ codes "/vm_pmp/"
    ∷ codes "/pmps/"
    ∷ codes "/pmpzicbo/"
    ∷ codes "/vm_sv"
    ∷ codes "/vm_"
    ∷ []

-- The parts under --full.
abbrev pub full_path_parts : List Text
full_path_parts =
    codes "/vm_pmp/" ∷ codes "/pmps/" ∷ codes "/pmpzicbo/" ∷ codes "/vm_sv" ∷ codes "/vm_" ∷ []

-- test_path.replace("\\", "/")
unfoldable pub normalized : Text → Text
normalized = map (λ c. if c == b'\\' then b'/' else c)

unfoldable pub should_exclude : Text → List Text → Bool
should_exclude test_path exclude_parts =
    any (λ part. contains (normalized test_path) part) exclude_parts

-- part.strip("/")
unfoldable pub strip_slashes_left : Text → Text
strip_slashes_left [] = []
strip_slashes_left (c ∷ s) = let rest = strip_slashes_left s in if c == b'/' then rest else c ∷ s

unfoldable pub strip_slashes_right : Text → Text
strip_slashes_right [] = []
strip_slashes_right (c ∷ s) = elim (strip_slashes_right s) [
  | [] ↦ if c == b'/' then [] else c ∷ []
  | d ∷ r ↦ c ∷ d ∷ r
]

abbrev pub strip_slashes : Text → Text
strip_slashes part = strip_slashes_right (strip_slashes_left part)

-- The Counter, in the order of first use.
abbrev pub Counter : Type 0
Counter = List (Text × ℕ)

-- excluded[name] += 1
unfoldable pub count_one : Text → Counter → Counter
count_one name [] = (name, 1) ∷ []
count_one name ((other, n) ∷ counts) =
    if eq_text other name then (other, n + 1) ∷ counts else (other, n) ∷ count_one name counts

-- The inner `for … else`: the first part that the path holds is counted, or "other".
unfoldable pub count_reason : Text → List Text → Counter → Counter
count_reason normal [] excluded = count_one (codes "other") excluded
count_reason normal (part ∷ parts) excluded =
    let next = count_reason normal parts excluded in
    if contains normal part then count_one (strip_slashes part) excluded else next

-- sorted(excluded.items()), whose keys are distinct, joined
abbrev pub count_text : Text × ℕ → Text
count_text (name, n) = name ++ b'=' ∷ format_dec n

unfoldable pub breakdown : Counter → Text
breakdown excluded =
    join_with (codes ", ") (map count_text (sort_by (λ c d. text_le c.0 d.0) excluded))

abbrev pub or_none : Text → Text
or_none [] = codes "none"
or_none (c ∷ s) = c ∷ s

pub record Filtered (Entry : Type 0) : Type 0 where
  pub kept : List (Text × Entry)
  pub excluded : Counter

module _ {Entry : Type 0} where
  -- entry.get("test_path", key)
  abbrev pub path_of : (Entry → Option Text) → Text → Entry → Text
  path_of test_path key entry = elim (test_path entry) [ none ↦ key | some path ↦ path ]

  -- One round: the item is counted or kept.
  unfoldable pub filter_item :
      (Entry → Option Text) → List Text → Text × Entry → Filtered Entry → Filtered Entry
  filter_item test_path exclude_parts (key, entry) st =
      if should_exclude (path_of test_path key entry) exclude_parts
      then record st {
        excluded =
            count_reason (normalized (path_of test_path key entry)) exclude_parts st.excluded;
      }
      else record st { kept = st.kept ++ (key, entry) ∷ [] }

  unfoldable pub filter_items :
      (Entry → Option Text) → List Text → List (Text × Entry) → Filtered Entry → Filtered Entry
  filter_items test_path exclude_parts [] st = st
  filter_items test_path exclude_parts (item ∷ items) st =
      filter_items test_path exclude_parts items (filter_item test_path exclude_parts item st)

  unfoldable pub filter_list : (Entry → Option Text) → Bool → List (Text × Entry) → Filtered Entry
  filter_list test_path full entries =
      filter_items test_path (if full then full_path_parts else exclude_path_parts) entries
        (record { kept = []; excluded = [] })

  -- The number that the summary line gives.
  unfoldable pub excluded_total : List (Text × Entry) → Filtered Entry → ℕ
  excluded_total entries st = length entries - length st.kept

  -- The line that main prints, with the breakdown by reason in the order of the reasons.
  unfoldable pub summary_line : List (Text × Entry) → Filtered Entry → Text
  summary_line entries st =
      codes "ACT filter: kept "
      ++ (format_dec (length st.kept)
          ++ (codes " tests, excluded "
              ++ (format_dec (excluded_total entries st)
                  ++ (codes " (" ++ (or_none (breakdown st.excluded) ++ codes ")\n")))))
