-- ===== src/Dhcp/Search.antt =====
-- The list of search domains in `tmp_buf`: each label stands behind its length.
use treiber.Base.{
  ℕ, suc, ◌+◌, ◌-◌, ◌%◌, ◌≤◌, ◌<◌, ◌≡◌, refl, sym, ap, ◌∙◌, true, false, none, some, List, [], ◌∷◌,
  ◌++◌, ltb, ◌==◌, if◌then◌else◌, length, drop, get_or, drop-eq-cons, drop-drop, length-drop, arith,
  append_assoc, append-nil, length-append, set-append, Bool-cases, inl, inr,
}
use mathlib.Core.Path.{ap₂}
use treiber.Dhcp.{put, copy_labels, search_loop}

-- The characters in front of the first dot.
unfoldable pub first_label : List ℕ → List ℕ
first_label [] = []
first_label (c ∷ cs) = if c == b'.' then [] else c ∷ first_label cs

-- A domain with the length of the label behind it in place of each dot.
unfoldable pub with_lengths : List ℕ → List ℕ
unfolding first_label
with_lengths [] = []
with_lengths (c ∷ cs) = (if c == b'.' then length (first_label cs) else c) ∷ with_lengths cs

-- A domain as RFC 1035 has it: the length of the first label, the labels, and the empty one.
unfoldable pub encode : List ℕ → List ℕ
unfolding first_label with_lengths
encode s = length (first_label s) ∷ (with_lengths s ++ (0 ∷ []))

unfoldable pub encode_all : List (List ℕ) → List ℕ
encode_all [] = []
encode_all (s ∷ ss) = encode s ++ encode_all ss

length-with_lengths : (s : List ℕ) → length (with_lengths s) ≡ length s
unfolding with_lengths
length-with_lengths [] = refl
length-with_lengths (c ∷ cs) = omega (arith, length-with_lengths cs)

put-append :
    (xs : List ℕ) (y : ℕ) (ys : List ℕ) (i v : ℕ)
    → i ≡ length xs
    → put (xs ++ (y ∷ ys)) i v ≡ some (xs ++ (v ∷ ys))
unfolding put
put-append xs y ys i v e = ground (arith, set-append xs y ys v, length-append {A = ℕ} xs (y ∷ ys))

-- `tmp_buf` while a domain is copied: what is finished, the place of a length, and the label so far.
abbrev state : List ℕ → ℕ → List ℕ → List ℕ → List ℕ
state finished x part rest = finished ++ (x ∷ (part ++ rest))

put_here :
    (finished : List ℕ) (x : ℕ) (part rest : List ℕ) (at v : ℕ)
    → at ≡ length finished
    → put (state finished x part rest) at v ≡ some (state finished v part rest)
put_here finished x part rest at v e = put-append finished x (part ++ rest) at v e

put_next :
    (finished : List ℕ) (x : ℕ) (part : List ℕ) (r : ℕ) (rest : List ℕ) (len c : ℕ)
    → len ≡ length finished + 1 + length part
    → put (state finished x part (r ∷ rest)) len c ≡ some (state finished x part (c ∷ rest))
put_next finished x part r rest len c e =
    ap (λ t. put t len c) (sym (append_assoc finished (x ∷ part) (r ∷ rest)))
    ∙ put-append (finished ++ (x ∷ part)) r rest len c
        (omega (arith, length-append {A = ℕ} finished (x ∷ part)))
    ∙ ap some (append_assoc finished (x ∷ part) (c ∷ rest))

-- What the loop leaves of a domain, behind the label so far.
abbrev copied : List ℕ → List ℕ → List ℕ → List ℕ → List ℕ
copied finished part s rest =
    finished
    ++ (length (part ++ first_label s) ∷ (part ++ (with_lengths s ++ drop (length s) rest)))

copied_dot :
    (finished part cs rest : List ℕ) (c r : ℕ)
    → (c == b'.') ≡ true
    → copied (finished ++ (length part ∷ part)) [] cs rest
      ≡ copied finished part (c ∷ cs) (r ∷ rest)
unfolding first_label with_lengths
copied_dot finished part cs rest c r h =
    let ys = length (first_label cs) ∷ (with_lengths cs ++ drop (length cs) rest) in
    rw (h, append-nil part) (append_assoc finished (length part ∷ part) ys)

copied_other :
    (finished part cs rest : List ℕ) (c r : ℕ)
    → (c == b'.') ≡ false
    → copied finished (part ++ (c ∷ [])) cs rest ≡ copied finished part (c ∷ cs) (r ∷ rest)
unfolding first_label with_lengths
copied_other finished part cs rest c r h = rw (
  h,
  append_assoc part (c ∷ []) (first_label cs),
  append_assoc part (c ∷ []) (with_lengths cs ++ drop (length cs) rest),
)

copied_end :
    (finished part rest : List ℕ)
    → state finished (length part) part rest ≡ copied finished part [] rest
unfolding first_label with_lengths
copied_end finished part rest = rw (append-nil part)

copy_labels_lem :
    (s finished : List ℕ) (x : ℕ) (part rest : List ℕ) (len at : ℕ)
    → at ≡ length finished
    → len ≡ at + 1 + length part
    → length part + length s < 256
    → length s ≤ length rest
    → copy_labels s (state finished x part rest) len at
      ≡ some (copied finished part s rest, len + length s)
unfolding copy_labels
copy_labels_lem [] finished x part rest len at e k small room =
    let v : (len - at - 1) % 256 ≡ length part = omega arith in
    rw (v, put_here finished x part rest at (length part) e)
      (ap₂ (λ t m. some (t, m)) (copied_end finished part rest) (omega arith))
copy_labels_lem (c ∷ cs) finished x part [] len at e k small room = absurd (omega arith)
copy_labels_lem (c ∷ cs) finished x part (r ∷ rest) len at e k small room =
    let v : (len - at - 1) % 256 ≡ length part = omega arith in
    let n : suc len + length cs ≡ len + suc (length cs) = omega arith in
    elim (Bool-cases (c == b'.')) [
      | inl dot ↦
          rw
            (
              dot,
              v,
              put_here finished x part (r ∷ rest) at (length part) e,
              put_next finished (length part) part r rest len c (omega arith),
            )
            (ap (λ t. copy_labels cs t (suc len) len)
                (sym (append_assoc finished (length part ∷ part) (c ∷ rest)))
              ∙ copy_labels_lem cs (finished ++ (length part ∷ part)) c [] rest (suc len) len
                  (omega (arith, length-append {A = ℕ} finished (length part ∷ part))) (omega arith)
                  (omega arith) (omega arith)
              ∙ ap₂ (λ t m. some (t, m)) (copied_dot finished part cs rest c r dot) n)
      | inr other ↦
          rw (other, put_next finished x part r rest len c (omega arith))
            (ap (λ t. copy_labels cs (finished ++ (x ∷ t)) (suc len) at)
                (sym (append_assoc part (c ∷ []) rest))
              ∙ copy_labels_lem cs finished x (part ++ (c ∷ [])) rest (suc len) at e
                  (omega (arith, length-append {A = ℕ} part (c ∷ [])))
                  (omega (arith, length-append {A = ℕ} part (c ∷ []))) (omega arith)
              ∙ ap₂ (λ t m. some (t, m)) (copied_other finished part cs rest c r other) n)
    ]

-- A domain is copied, and closed.
copy_domain :
    (s finished : List ℕ) (x : ℕ) (rest : List ℕ) (len : ℕ)
    → len ≡ length finished
    → length s < 256
    → length s < length rest
    → (r : List ℕ × ℕ) × (copy_labels s (finished ++ (x ∷ rest)) (suc len) len ≡ some r)
      × (put r.0 r.1 0 ≡ some ((finished ++ encode s) ++ drop (suc (length s)) rest))
      × (r.1 ≡ suc len + length s)
unfolding encode
copy_domain s finished x rest len e small room =
    let l = length (first_label s) in
    let tail = drop (suc (length s)) rest in
    (
      (copied finished [] s rest, suc len + length s),
      copy_labels_lem s finished x [] rest (suc len) len e (omega arith) (omega arith)
          (omega arith),
      ap (λ d. put (finished ++ (l ∷ (with_lengths s ++ d))) (suc len + length s) 0)
            (drop-eq-cons (length s) rest 0 room)
          ∙ put_next finished l (with_lengths s) (get_or rest (length s) 0) tail
              (suc len + length s) 0 (omega (arith, length-with_lengths s))
          ∙ ap some (
              ap (λ t. finished ++ (l ∷ t)) (sym (append_assoc (with_lengths s) (0 ∷ []) tail))
              ∙ sym (append_assoc finished (l ∷ (with_lengths s ++ (0 ∷ []))) tail)),
      refl,
    )

length-encode : (s : List ℕ) → length (encode s) ≡ length s + 2
unfolding encode
length-encode s =
    omega (arith, length-append {A = ℕ} (with_lengths s) (0 ∷ []), length-with_lengths s)

pub length-encode_all : (s : List ℕ) (ss : List (List ℕ)) → 1 ≤ length (encode_all (s ∷ ss))
unfolding encode_all
length-encode_all s ss =
    omega (arith, length-append {A = ℕ} (encode s) (encode_all ss), length-encode s)

-- What lies in `tmp_buf` behind a domain and those that follow.
following :
    (finished s ys : List ℕ) (x : ℕ) (rest : List ℕ)
    → ((finished ++ encode s) ++ ys) ++ drop (length ys) (drop (suc (length s)) rest)
      ≡ (finished ++ (encode s ++ ys)) ++ drop (length (encode s ++ ys)) (x ∷ rest)
following finished s ys x rest =
    let n : length (encode s ++ ys) ≡ suc (suc (length s) + length ys) =
      omega (arith, length-append {A = ℕ} (encode s) ys, length-encode s) in
    rw (n, append_assoc finished (encode s) ys, drop-drop (suc (length s)) (length ys) rest)

put_full : (tmp : List ℕ) (i v : ℕ) → length tmp ≤ i → put tmp i v ≡ none
unfolding put
put_full tmp i v h = ground arith

-- Where the encoded domains fit `tmp_buf`, the loop ends, and leaves them there.
pub search_loop_lem :
    (ss : List (List ℕ)) (finished rest : List ℕ) (len : ℕ)
    → len ≡ length finished
    → length finished + length rest ≤ 256
    → length (encode_all ss) ≤ length rest
    → search_loop ss (finished ++ rest) len
      ≡ some (
        false,
        (finished ++ encode_all ss) ++ drop (length (encode_all ss)) rest,
        len + length (encode_all ss),
      )
unfolding search_loop encode_all
search_loop_lem [] finished rest len e room fits =
    rw (append-nil finished) (ap (λ m. some (false, finished ++ rest, m)) (omega arith))
search_loop_lem (s ∷ ss) finished [] len e room fits =
    absurd (omega (arith, length-append {A = ℕ} (encode s) (encode_all ss), length-encode s))
search_loop_lem (s ∷ ss) finished (x ∷ rest) len e room fits =
    let a = length-append {A = ℕ} (encode s) (encode_all ss) in
    let b = length-encode s in
    let (r, copy, close, n) =
      copy_domain s finished x rest len e (omega (arith, a, b)) (omega (arith, a, b)) in
    let test : ltb (length (finished ++ (x ∷ rest))) (length s + len + 1) ≡ false =
      ground (arith, length-append {A = ℕ} finished (x ∷ rest), a, b) in
    rw (test, search_loop, copy, close, n)
      (search_loop_lem ss (finished ++ encode s) (drop (suc (length s)) rest)
          (suc (suc len + length s)) (omega (arith, length-append {A = ℕ} finished (encode s), b))
          (omega (
            arith,
            length-append {A = ℕ} finished (encode s),
            length-drop {A = ℕ} (suc (length s)) rest,
            a,
            b,
          ))
          (omega (arith, length-drop {A = ℕ} (suc (length s)) rest, a, b))
        ∙ ap₂ (λ t m. some (false, t, m)) (following finished s (encode_all ss) x rest)
            (omega (arith, a, b)))

-- A first domain of 255 characters passes the test, and its NUL is written behind the end of `tmp_buf`.
pub search_loop_overflow :
    (s tmp : List ℕ) (ss : List (List ℕ))
    → length tmp ≡ 256
    → length s ≡ 255
    → search_loop (s ∷ ss) tmp 0 ≡ none
unfolding search_loop
search_loop_overflow s [] ss e k = absurd (omega arith)
search_loop_overflow s (x ∷ rest) ss e k =
    let copy = copy_labels_lem s [] x [] rest 1 0 refl refl (omega arith) (omega arith) in
    let test : ltb (length (x ∷ rest)) (length s + 0 + 1) ≡ false = ground arith in
    let full : put (copied [] [] s rest) (1 + length s) 0 ≡ none =
      put_full (copied [] [] s rest) (1 + length s) 0 (
        omega (
          arith,
          length-append {A = ℕ} (with_lengths s) (drop (length s) rest),
          length-with_lengths s,
          length-drop {A = ℕ} (length s) rest,
        )) in
    rw (test, search_loop, copy, full)
