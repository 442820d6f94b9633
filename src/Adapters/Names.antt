-- ===== src/Adapters/Names.antt =====
-- Which adapters `deactiveEverythingBut` leaves in use.
use treiber.Base.{
  ℕ, zero, suc, ◌≡◌, refl, ap, ◌↔◌, inl, inr, true, some, List, [], ◌∷◌, arith, get_elem?,
  Bool-cases,
}
use treiber.Adapters.{
  Entry, same_text, has_name, deactive_everything_but, has_activated_network_adapters,
}

same_text_iff : (s t : List ℕ) → (same_text s t ≡ true) ↔ (s ≡ t)
unfolding same_text
same_text_iff [] [] = ground arith
same_text_iff [] (d ∷ t) = ground arith
same_text_iff (c ∷ s) [] = ground arith
same_text_iff (c ∷ s) (d ∷ t) = ground (arith, same_text_iff s t)

-- The text is one of the list.
abbrev pub OneOf : List (List ℕ) → List ℕ → Type 0
OneOf names s = (i : ℕ) × (get_elem? names i ≡ some s)

has_name_sound : (names : List (List ℕ)) (s : List ℕ) → has_name names s ≡ true → OneOf names s
unfolding has_name
has_name_sound [] s h = ground (arith, h)
has_name_sound (n ∷ names) s h = elim (Bool-cases (same_text n s)) [
  | inl e ↦ (0, ap some ((same_text_iff n s).0 e))
  | inr e ↦ let (i, p) = has_name_sound names s (ground (arith, h, e)) in (suc i, p)
]

has_name_complete :
    (names : List (List ℕ)) (s : List ℕ) (i : ℕ)
    → get_elem? names i ≡ some s
    → has_name names s ≡ true
unfolding has_name
has_name_complete [] s i h = ground (arith, h)
has_name_complete (n ∷ names) s zero h = ground (arith, h, same_text_iff n s)
has_name_complete (n ∷ names) s (suc i) h = ground (arith, has_name_complete names s i h)

-- After `deactiveEverythingBut` an adapter is in use exactly where its name is one of the list, which
-- decides whether the driver goes on.
pub has_activated-deactive_iff :
    (names : List (List ℕ)) (es : List Entry)
    → (has_activated_network_adapters (deactive_everything_but names es) ≡ true)
      ↔ ((i : ℕ) × (e : Entry) × (get_elem? es i ≡ some e) × OneOf names e.adapter.name)
unfolding has_activated_network_adapters deactive_everything_but
has_activated-deactive_iff names es = (sound es, complete es)
  where
    sound :
        (es : List Entry)
        → has_activated_network_adapters (deactive_everything_but names es) ≡ true
        → (i : ℕ) × (e : Entry) × (get_elem? es i ≡ some e) × OneOf names e.adapter.name
    sound [] h = ground (arith, h)
    sound (e ∷ es) h = elim (Bool-cases (has_name names e.adapter.name)) [
      | inl f ↦ (0, e, refl, has_name_sound names e.adapter.name f)
      | inr f ↦ let (i, x, p, q) = sound es (ground (arith, h, f)) in (suc i, x, p, q)
    ]

    complete :
        (es : List Entry)
        → ((i : ℕ) × (e : Entry) × (get_elem? es i ≡ some e) × OneOf names e.adapter.name)
        → has_activated_network_adapters (deactive_everything_but names es) ≡ true
    complete [] (i, e, h, m) = ground (arith, h)
    complete (x ∷ es) (zero, e, h, m) =
        ground (arith, h, has_name_complete names e.adapter.name m.0 m.1)
    complete (x ∷ es) (suc i, e, h, m) = ground (arith, complete es (i, e, h, m))
