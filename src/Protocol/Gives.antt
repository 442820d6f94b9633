-- ===== src/Protocol/Gives.antt =====
-- What a handler gives, where it is defined, by the form of its body.
use mathlib.Core.Path.{subst}
use treiber.Base.{
  ◌≡◌, refl, ◌⊎◌, inl, inr, Bool, true, false, Option, none, some, if◌then◌else◌, ◌>>=◌,
}
use treiber.Protocol.Document.{Found, absent, mistyped, found}

-- The result is undefined or has the property.
abbrev pub Gives {ℓ} : {A : Type ℓ} → (A → Type 0) → Option A → Type 0
Gives P none = Unit
Gives P (some a) = P a

module _ {A B : Type 0} (P : B → Type 0) where
  pub bind-Gives :
      (o : Option A) (f : A → Option B) → ((a : A) → o ≡ some a → Gives P (f a)) → Gives P (o >>= f)
  bind-Gives none f h = tt
  bind-Gives (some a) f h = h a refl

module _ {B : Type 0} (P : B → Type 0) where
  pub if-Gives :
      (b : Bool) (x y : Option B)
      → (b ≡ true → Gives P x)
      → (b ≡ false → Gives P y)
      → Gives P (if b then x else y)
  if-Gives true x y h k = h refl
  if-Gives false x y h k = k refl

  pub sum-Gives :
      {A C : Type 0} (g : A ⊎ C) (f : A → Option B) (k : C → Option B)
      → ((a : A) → Gives P (f a))
      → ((c : C) → Gives P (k c))
      → Gives P (elim g [ inl a ↦ f a | inr c ↦ k c ])
  sum-Gives (inl a) f k h i = h a
  sum-Gives (inr c) f k h i = i c

  pub found-Gives :
      {A : Type 0} (g : Found A) (x y : Option B) (f : A → Option B)
      → Gives P x
      → Gives P y
      → ((a : A) → Gives P (f a))
      → Gives P (elim g [ absent ↦ x | mistyped ↦ y | found a ↦ f a ])
  found-Gives absent x y f h i j = h
  found-Gives mistyped x y f h i j = i
  found-Gives (found a) x y f h i j = j a

  pub option-Gives :
      {A : Type 0} (g : Option A) (x : Option B) (f : A → Option B)
      → Gives P x
      → ((a : A) → Gives P (f a))
      → Gives P (elim g [ none ↦ x | some a ↦ f a ])
  option-Gives none x f h i = h
  option-Gives (some a) x f h i = i a

  pub Gives-elim : (o : Option B) (b : B) → Gives P o → o ≡ some b → P b
  Gives-elim o b h e = subst (Gives P) e h
