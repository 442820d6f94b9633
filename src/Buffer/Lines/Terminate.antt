-- ===== src/Buffer/Lines/Terminate.antt =====
-- `buf_null_terminate` and `buf_chomp`.
use treiber.Base.{
  ℕ, zero, suc, ◌+◌, ◌-◌, ◌<◌, ◌≡◌, ◌≢◌, refl, sym, ap, ◌∙◌, true, false, List, [], ◌∷◌, ◌++◌,
  arith, length, All, drop, get_or, none, some, append_assoc, append-nil, length-append,
}
use treiber.Base.Int.{pos, negsuc, ◌+ℤ◌}
use treiber.Buffer.{buf_blast, buf_safe, buf_inc_len}
use treiber.Buffer.Rep.{rep, Fits}
use treiber.Buffer.Access.Read.{len-rep}
use treiber.Buffer.Access.Numbers.{write_u8_room}
use treiber.Buffer.Lines.{last_byte, buf_null_terminate, chomp_loop, buf_chomp}
use treiber.Chars.{char_class, cc_crlf_null}

get_or-append : (xs ys : List ℕ) (y i : ℕ) → i ≡ length xs → get_or (xs ++ (y ∷ ys)) i 0 ≡ y
get_or-append [] ys y zero e = refl
get_or-append [] ys y (suc i) e = absurd (omega arith)
get_or-append (x ∷ xs) ys y zero e = absurd (omega arith)
get_or-append (x ∷ xs) ys y (suc i) e = get_or-append xs ys y i (omega arith)

last_byte-snoc :
    (pre c : List ℕ) (x : ℕ) (post : List ℕ) → last_byte (rep pre (c ++ (x ∷ [])) post) ≡ some x
unfolding buf_blast
last_byte-snoc pre c x post = ground (
  arith,
  length-append {A = ℕ} c (x ∷ []),
  length-append {A = ℕ} pre c,
  append_assoc c (x ∷ []) post,
  append_assoc pre c (x ∷ post),
  get_or-append (pre ++ c) post x (length pre + (length c + 1) - 1),
)

last_byte-nil : (pre post : List ℕ) → last_byte (rep pre [] post) ≡ none
unfolding buf_blast
last_byte-nil pre post = ground arith

-- Shortening the content by one byte.
inc_len-snoc :
    (pre c : List ℕ) (x : ℕ) (post : List ℕ)
    → Fits pre (c ++ (x ∷ [])) post
    → buf_inc_len (rep pre (c ++ (x ∷ [])) post) (negsuc 0) ≡ (true, rep pre c (x ∷ post))
unfolding buf_inc_len ◌+ℤ◌
inc_len-snoc pre c x post f =
    ground (arith, length-append {A = ℕ} c (x ∷ []), append_assoc c (x ∷ []) post)

safe_one :
    (pre c post : List ℕ) (p : ℕ)
    → Fits pre c (p ∷ post)
    → buf_safe (rep pre c (p ∷ post)) (pos 1) ≡ true
unfolding buf_safe ◌+ℤ◌
safe_one pre c post p f = ground arith

full_one : (pre c : List ℕ) → buf_safe (rep pre c []) (pos 1) ≡ false
unfolding buf_safe ◌+ℤ◌
full_one pre c = ground arith

-- A content that already ends in NUL is left alone.
null_terminate_done :
    (pre c post : List ℕ)
    → buf_null_terminate (rep pre (c ++ (0 ∷ [])) post) ≡ rep pre (c ++ (0 ∷ [])) post
unfolding buf_null_terminate
null_terminate_done pre c post = ground (arith, last_byte-snoc pre c 0 post)

-- With a byte of room the NUL goes behind a content that is empty or ends otherwise.
null_terminate_room :
    (pre c post : List ℕ) (p : ℕ)
    → Fits pre c (p ∷ post)
    → last_byte (rep pre c (p ∷ post)) ≢ some 0
    → buf_null_terminate (rep pre c (p ∷ post)) ≡ rep pre (c ++ (0 ∷ [])) post
unfolding buf_null_terminate
null_terminate_room pre c post p f h =
    ground (arith, safe_one pre c post p f, write_u8_room pre c (p ∷ post) (pos 0) f (omega arith))

-- Without room the NUL takes the place of the last byte.
null_terminate_full :
    (pre c : List ℕ) (x : ℕ)
    → Fits pre (c ++ (x ∷ [])) []
    → x ≢ 0
    → buf_null_terminate (rep pre (c ++ (x ∷ [])) []) ≡ rep pre (c ++ (0 ∷ [])) []
unfolding buf_null_terminate
null_terminate_full pre c x f h = ground (
  arith,
  last_byte-snoc pre c x [],
  full_one pre (c ++ (x ∷ [])),
  inc_len-snoc pre c x [] f,
  write_u8_room pre c (x ∷ []) (pos 0) (omega (arith, length-append {A = ℕ} c (x ∷ [])))
      (omega arith),
)

-- The characters that `buf_chomp` removes, last first.
abbrev pub back : List ℕ → List ℕ
back [] = []
back (x ∷ r) = back r ++ (x ∷ [])

abbrev IsEnd : ℕ → Type 0
IsEnd c = char_class c cc_crlf_null ≡ true

-- The content is empty or ends in a character that stays.
data Stays (w : List ℕ) : Type 0 where
  nothing : w ≡ [] → Stays w
  ends : (w' : List ℕ) (x : ℕ) → w ≡ w' ++ (x ∷ []) → char_class x cc_crlf_null ≡ false → Stays w

chomp_loop-Stays :
    (fuel : ℕ) (pre w post : List ℕ) → Stays w → chomp_loop fuel (rep pre w post) ≡ rep pre w post
unfolding chomp_loop
chomp_loop-Stays zero pre w post s = refl
chomp_loop-Stays (suc fuel) pre w post (nothing e) = rw e (ground (arith, last_byte-nil pre post))
chomp_loop-Stays (suc fuel) pre w post (ends w' x e h) =
    rw e (ground (arith, last_byte-snoc pre w' x post))

chomp_step :
    (fuel : ℕ) (pre c : List ℕ) (x : ℕ) (post : List ℕ)
    → Fits pre (c ++ (x ∷ [])) post
    → IsEnd x
    → chomp_loop (suc fuel) (rep pre (c ++ (x ∷ [])) post) ≡ chomp_loop fuel (rep pre c (x ∷ post))
unfolding chomp_loop
chomp_step fuel pre c x post f h =
    ground (arith, last_byte-snoc pre c x post, inc_len-snoc pre c x post f)

length-back : (r : List ℕ) → length (back r) ≡ length r
length-back [] = refl
length-back (x ∷ r) = omega (arith, length-append {A = ℕ} (back r) (x ∷ []), length-back r)

nul_class : char_class 0 cc_crlf_null ≡ true
unfolding char_class
nul_class = refl

-- NUL is in the class, so a content that stays does not end in it.
Stays-ne-nul : (pre w post : List ℕ) → Stays w → last_byte (rep pre w post) ≢ some 0
Stays-ne-nul pre w post (nothing e) = rw e (λ p. cc (last_byte-nil pre post))
Stays-ne-nul pre w post (ends w' x e h) =
    rw e (λ p. cc (last_byte-snoc pre w' x post, p, h, nul_class))

terminate :
    (pre w post : List ℕ)
    → Fits pre w post
    → Stays w
    → 0 < length post
    → buf_null_terminate (rep pre w post) ≡ rep pre (w ++ (0 ∷ [])) (drop 1 post)
terminate pre w [] f s k = elim k [ ]
terminate pre w (p ∷ post) f s k =
    null_terminate_room pre w post p f (Stays-ne-nul pre w (p ∷ post) s)

chomp_loop_lem :
    (r : List ℕ) (fuel : ℕ) (pre w post : List ℕ)
    → Fits pre (w ++ back r) post
    → All IsEnd r
    → Stays w
    → length r < fuel
    → chomp_loop fuel (rep pre (w ++ back r) post) ≡ rep pre w (back r ++ post)
unfolding chomp_loop
chomp_loop_lem [] fuel pre w post f h s k = rw append-nil (chomp_loop-Stays fuel pre w post s)
chomp_loop_lem (x ∷ r) zero pre w post f h s k = elim k [ ]
chomp_loop_lem (x ∷ r) (suc fuel) pre w post f h s k =
    let e = sym (append_assoc w (back r) (x ∷ [])) in
    let f' : Fits pre ((w ++ back r) ++ (x ∷ [])) post = rw e at f in
    ap (λ c. chomp_loop (suc fuel) (rep pre c post)) e
    ∙ chomp_step fuel pre (w ++ back r) x post f' h.0
    ∙ chomp_loop_lem r fuel pre w (x ∷ post)
        (omega (arith, length-append {A = ℕ} (w ++ back r) (x ∷ []))) h.1 s (omega arith)
    ∙ rw append_assoc

-- `buf_chomp` removes every CR, LF and NUL from the end of the content and puts one NUL there.
buf_chomp_lem :
    (pre w r post : List ℕ)
    → Fits pre (w ++ back r) post
    → All IsEnd r
    → Stays w
    → 0 < length r + length post
    → buf_chomp (rep pre (w ++ back r) post) ≡ rep pre (w ++ (0 ∷ [])) (drop 1 (back r ++ post))
unfolding buf_chomp
buf_chomp_lem pre w r post f h s k =
    rw
      (
        len-rep pre (w ++ back r) post,
        chomp_loop_lem r (length (w ++ back r) + 1) pre w post f h s
            (omega (arith, length-append {A = ℕ} w (back r), length-back r)),
      )
      (terminate pre w (back r ++ post)
        (omega (arith, length-append {A = ℕ} w (back r), length-append {A = ℕ} (back r) post)) s
        (omega (arith, length-back r, length-append {A = ℕ} (back r) post)))
