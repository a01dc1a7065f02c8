-- ===== src/Testlist/Pick/Order.antt =====
-- The lesser of two texts.
use sisrv_platform.Prelude.{
  ◌≡◌, inl, inr, Text, Bool-cases, arith, text_le, text_le-total, text_le_trans, text_le_antisymm,
}
use sisrv_platform.Testlist.Pick.{lesser}

pub lesser_comm : (s t : Text) → lesser s t ≡ lesser t s
unfolding lesser
lesser_comm s t = elim (Bool-cases (text_le s t)) [
  | inl below ↦ elim (Bool-cases (text_le t s)) [
    | inl above ↦ rw (below, above) (text_le_antisymm s t below above)
    | inr apart ↦ rw (below, apart)
  ]
  | inr apart ↦ elim (text_le-total s t) [ inl below ↦ cc | inr above ↦ rw (apart, above) ]
]

pub lesser_assoc : (s t u : Text) → lesser s (lesser t u) ≡ lesser (lesser s t) u
unfolding lesser
lesser_assoc s t u = ground (
  arith,
  text_le_trans s t u,
  text_le_trans u t s,
  text_le-total s t,
  text_le-total t u,
  text_le_antisymm s u,
)
