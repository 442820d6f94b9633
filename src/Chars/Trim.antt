-- ===== src/Chars/Trim.antt =====
-- `rm_trailing_chars` and `chomp`.
use treiber.Base.{
  ℕ, zero, suc, ◌+◌, ◌-◌, ◌<◌, ◌≡◌, sym, ap, ◌∙◌, true, false, inl, inr, List, [], ◌∷◌, ◌++◌, arith,
  length, All, Bool-cases, take, get_or, ltb, ◌&&◌, append_assoc, take-append-drop, length-take,
  append-nil, drop-eq-cons, drop-of_length_le,
}
use treiber.Chars.{strchr, rm_trailing_loop, rm_trailing_chars}

-- The string ends in no character of `what`.
abbrev EndsClean : List ℕ → List ℕ → Type 0
EndsClean what s = (ltb 0 (length s) && strchr what (get_or s (length s - 1) 0)) ≡ false

-- What `rm_trailing_chars` did: `s` is the result and then characters of `what` only, and no more
-- could be removed.
record Trimmed (what s out : List ℕ) : Type 0 where
  pub removed : List ℕ
  pub split : s ≡ out ++ removed
  pub all_in : All (λ c. strchr what c ≡ true) removed
  pub clean : EndsClean what out

split_last :
    (s : List ℕ) → 0 < length s → s ≡ take (length s - 1) s ++ (get_or s (length s - 1) 0 ∷ [])
split_last s h =
    let k : ℕ = length s - 1 in
    sym (take-append-drop k s)
    ∙ ap (λ t. take k s ++ t)
        (drop-eq-cons k s 0 (omega arith)
          ∙ ap (λ t. get_or s k 0 ∷ t) (drop-of_length_le (suc k) s (omega arith)))

All-snoc :
    (what xs : List ℕ) (c : ℕ)
    → All (λ d. strchr what d ≡ true) xs
    → strchr what c ≡ true
    → All (λ d. strchr what d ≡ true) (xs ++ (c ∷ []))
All-snoc what [] c h e = (e, tt)
All-snoc what (x ∷ xs) c h e = (h.0, All-snoc what xs c h.1 e)

-- With more rounds than characters the loop ends by its test.
rm_trailing_loop-Trimmed :
    (fuel : ℕ) (s what : List ℕ) → length s < fuel → Trimmed what s (rm_trailing_loop fuel s what)
unfolding rm_trailing_loop
rm_trailing_loop-Trimmed zero s what h = elim h [ ]
rm_trailing_loop-Trimmed (suc fuel) s what h =
    elim (Bool-cases (ltb 0 (length s) && strchr what (get_or s (length s - 1) 0))) [
      | inl more ↦
          let shorter : length (take (length s - 1) s) ≡ length s - 1 =
            omega (arith, length-take {A = ℕ} (length s - 1) s) in
          let t = rm_trailing_loop-Trimmed fuel (take (length s - 1) s) what (ground arith) in
          rw more (record {
            removed = t.removed ++ (get_or s (length s - 1) 0 ∷ []);
            split =
                split_last s (ground arith)
                ∙ ap (λ u. u ++ (get_or s (length s - 1) 0 ∷ [])) t.split
                ∙ append_assoc _ t.removed (get_or s (length s - 1) 0 ∷ []);
            all_in = All-snoc what t.removed (get_or s (length s - 1) 0) t.all_in (ground arith);
            clean = t.clean;
          })
      | inr done ↦
          rw done (record { removed = []; split = sym (append-nil s); all_in = tt; clean = done })
    ]

-- `rm_trailing_chars` removes characters of `what` from the end until none is left there, and
-- nothing else; its loop ends on every string.
rm_trailing_chars-Trimmed : (s what : List ℕ) → Trimmed what s (rm_trailing_chars s what)
unfolding rm_trailing_chars
rm_trailing_chars-Trimmed s what = rm_trailing_loop-Trimmed (length s + 1) s what (omega arith)
