-- ===== src/Layer/Order.antt =====
-- layer.h: the order on endpoint identifiers, by which std::map finds them.
use decom.Base.{◌≡◌, true, false, arith, Bool-cases, inl, inr, ◌⊎◌}
use decom.Layer.{Eid, eid_eq, eid_lt}

-- If one identifier comes before a second, and that before a third, then so does the first before
-- the third.
pub eid_lt_trans : (a b c : Eid) → eid_lt a b ≡ true → eid_lt b c ≡ true → eid_lt a c ≡ true
unfolding eid_lt
eid_lt_trans a b c h h' = ground arith

eid_lt_asym : (a b : Eid) → eid_lt a b ≡ true → eid_lt b a ≡ false
unfolding eid_lt
eid_lt_asym a b h = ground arith

eid_lt_ne : (a b : Eid) → eid_lt a b ≡ true → eid_eq a b ≡ false
unfolding eid_lt eid_eq
eid_lt_ne a b h = ground arith

eid_gt_ne : (a b : Eid) → eid_lt b a ≡ true → eid_eq a b ≡ false
unfolding eid_lt eid_eq
eid_gt_ne a b h = ground arith

unordered-eid_eq : (a b : Eid) → eid_lt a b ≡ false → eid_lt b a ≡ false → eid_eq a b ≡ true
unfolding eid_lt eid_eq
unordered-eid_eq a b h h' = ground arith

-- Of two identifiers either the first comes before the second, or they are equal, or the second comes
-- before the first, and only one of these holds.
pub eid_trichotomy :
    (a b : Eid)
    → ((eid_lt a b ≡ true) × (eid_eq a b ≡ false) × (eid_lt b a ≡ false))
      ⊎ (((eid_lt a b ≡ false) × (eid_eq a b ≡ true) × (eid_lt b a ≡ false))
          ⊎ ((eid_lt a b ≡ false) × (eid_eq a b ≡ false) × (eid_lt b a ≡ true)))
eid_trichotomy a b = elim (Bool-cases (eid_lt a b)) [
  | inl before ↦ inl (before, eid_lt_ne a b before, eid_lt_asym a b before)
  | inr not_before ↦ elim (Bool-cases (eid_lt b a)) [
    | inl behind ↦ inr (inr (not_before, eid_gt_ne a b behind, behind))
    | inr not_behind ↦
        inr (inl (not_before, unordered-eid_eq a b not_before not_behind, not_behind))
  ]
]
