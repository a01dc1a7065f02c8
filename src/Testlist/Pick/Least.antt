-- ===== src/Testlist/Pick/Least.antt =====
-- The first choice of a filtered list is the least of its keys.
use sisrv_platform.Prelude.{
  ◌≡◌, refl, subst, inl, inr, true, none, some, List, [], ◌∷◌, Text, eq_text, any, All, Bool-cases,
  arith, text_le, text_le-total, text_le_trans,
}
use sisrv_platform.Testlist.Pick.{lesser, least, first_choice}

pub text_le_refl : (s : Text) → text_le s s ≡ true
text_le_refl s = ground (arith, text_le-total s s)

pub eq_text_refl : (s : Text) → eq_text s s ≡ true
eq_text_refl [] = refl
eq_text_refl (c ∷ s) = ground (arith, eq_text_refl s)

pub eq_text-eq : (s t : Text) → eq_text s t ≡ true → s ≡ t
eq_text-eq [] [] h = refl
eq_text-eq [] (d ∷ t) h = cc
eq_text-eq (c ∷ s) [] h = cc
eq_text-eq (c ∷ s) (d ∷ t) h = ground (arith, eq_text-eq s t)

All-le_trans :
    (s t : Text) (keys : List Text)
    → text_le s t ≡ true
    → All (λ key. text_le t key ≡ true) keys
    → All (λ key. text_le s key ≡ true) keys
All-le_trans s t [] h _ = tt
All-le_trans s t (key ∷ keys) h (p, more) =
    (text_le_trans s t key h p, All-le_trans s t keys h more)

-- One of the keys, and no later than any.
abbrev IsLeast : List Text → Text → Type 0
IsLeast keys best =
    (any (λ key. eq_text key best) keys ≡ true) × All (λ key. text_le best key ≡ true) keys

IsLeast-lesser :
    (key best : Text) (keys : List Text)
    → IsLeast keys best
    → IsLeast (key ∷ keys) (lesser key best)
unfolding lesser
IsLeast-lesser key best keys (among, below) = elim (Bool-cases (text_le key best)) [
  | inl first ↦
      let picked : key ≡ lesser key best = ground arith in
      subst (λ (t : Text). IsLeast (key ∷ keys) t) picked
        (
          ground (arith, eq_text_refl key),
          (text_le_refl key, All-le_trans key best keys first below),
        )
  | inr later ↦
      let picked : best ≡ lesser key best = ground arith in
      subst (λ (t : Text). IsLeast (key ∷ keys) t) picked
        (ground arith, (ground (arith, text_le-total key best), below))
]

pub least-IsLeast : (key : Text) (keys : List Text) → IsLeast (key ∷ keys) (least key keys)
unfolding least
least-IsLeast key [] = ground (arith, eq_text_refl key, text_le_refl key)
least-IsLeast key (next ∷ keys) =
    IsLeast-lesser key (least next keys) (next ∷ keys) (least-IsLeast next keys)

pub first_choice-IsLeast :
    (keys : List Text) {best : Text} → first_choice keys ≡ some best → IsLeast keys best
unfolding first_choice
first_choice-IsLeast [] h = cc
first_choice-IsLeast (key ∷ []) {best} h =
    let same : key ≡ best = cc in
    subst (λ (t : Text). IsLeast (key ∷ []) t) same
      (ground (arith, eq_text_refl key), (text_le_refl key, tt))
first_choice-IsLeast (key ∷ next ∷ keys) {best} h =
    let same : least key (next ∷ keys) ≡ best = cc in
    subst (λ (t : Text). IsLeast (key ∷ next ∷ keys) t) same (least-IsLeast key (next ∷ keys))

pub first_choice-none : (keys : List Text) → first_choice keys ≡ none → keys ≡ []
unfolding first_choice
first_choice-none [] h = refl
first_choice-none (key ∷ []) h = cc
first_choice-none (key ∷ next ∷ keys) h = cc
