-- ===== src/Adapters/Texts.antt =====
-- `parseIpString` reads the address that an output in dotted form stands for.
use treiber.Base.{
  ℕ, zero, suc, ◌+◌, ◌-◌, ◌*◌, ◌/◌, ◌%◌, ◌^◌, ◌<◌, ◌≡◌, refl, true, false, none, some, List, [],
  ◌∷◌, ◌++◌, arith, All, ltb, ◌==◌, if◌then◌else◌,
}
use treiber.Base.Int.{ℤ, pos}
use treiber.Buffer.Access.{wrap}
use treiber.AppConfig.{NsIpAddress}
use treiber.Adapters.{
  is_digit, skip_space, digits_value, atoi_signed, atoi, before_dot, find_dot, after_dot,
  parse_ip_string, positive,
}

-- The digits of a number, on fuel: one more than the number is enough.
unfoldable pub digits_loop : ℕ → ℕ → List ℕ
digits_loop zero n = []
digits_loop (suc fuel) n =
    let rest = digits_loop fuel (n / 10) in
    if ltb n 10 then (b'0' + n) ∷ [] else rest ++ ((b'0' + n % 10) ∷ [])

unfoldable pub digits : ℕ → List ℕ
unfolding digits_loop
digits n = digits_loop (n + 1) n

-- The output of an address with "{}.{}.{}.{}".
unfoldable pub dotted : NsIpAddress → List ℕ
dotted a =
    digits a.ipp1 ++ (b'.' ∷ (digits a.ipp2 ++ (b'.' ∷ (digits a.ipp3 ++ (b'.' ∷ digits a.ipp4)))))

abbrev AllDigits : List ℕ → Type 0
AllDigits s = All (λ c. is_digit c ≡ true) s

snoc-AllDigits : (s : List ℕ) (d : ℕ) → AllDigits s → d < 10 → AllDigits (s ++ ((b'0' + d) ∷ []))
snoc-AllDigits [] d h k = (ground arith, tt)
snoc-AllDigits (c ∷ s) d h k = (h.0, snoc-AllDigits s d h.1 k)

digits_loop-AllDigits : (fuel n : ℕ) → AllDigits (digits_loop fuel n)
unfolding digits_loop
digits_loop-AllDigits zero n = tt
digits_loop-AllDigits (suc fuel) n = ground (
  arith,
  digits_loop-AllDigits fuel (n / 10),
  snoc-AllDigits (digits_loop fuel (n / 10)) (n % 10),
)

digits_value-snoc :
    (s : List ℕ) (d n : ℕ)
    → AllDigits s
    → d < 10
    → digits_value n (s ++ ((b'0' + d) ∷ [])) ≡ 10 * digits_value n s + d
unfolding digits_value
digits_value-snoc [] d n h k = ground arith
digits_value-snoc (c ∷ s) d n h k =
    ground (arith, h.0, digits_value-snoc s d (10 * n + (c - b'0')) h.1 k)

digits_value-digits_loop : (fuel n : ℕ) → n < fuel → digits_value 0 (digits_loop fuel n) ≡ n
unfolding digits_loop digits_value
digits_value-digits_loop zero n h = omega arith
digits_value-digits_loop (suc fuel) n h = ground (
  arith,
  digits_value-digits_loop fuel (n / 10),
  digits_value-snoc (digits_loop fuel (n / 10)) (n % 10) 0 (digits_loop-AllDigits fuel (n / 10))
      (omega arith),
)

-- A text of digits has no space or sign at its front.
atoi-AllDigits : (s : List ℕ) → AllDigits s → atoi s ≡ positive (digits_value 0 s)
unfolding atoi atoi_signed skip_space digits_value
atoi-AllDigits [] h = refl
atoi-AllDigits (c ∷ s) h = ground (arith, h.0)

before_dot-digits : (s rest : List ℕ) → AllDigits s → before_dot (s ++ (b'.' ∷ rest)) ≡ s
unfolding before_dot
before_dot-digits [] rest h = refl
before_dot-digits (c ∷ s) rest h = ground (arith, h.0, before_dot-digits s rest h.1)

find_dot-digits : (s rest : List ℕ) → AllDigits s → find_dot (s ++ (b'.' ∷ rest)) ≡ some rest
unfolding find_dot
find_dot-digits [] rest h = refl
find_dot-digits (c ∷ s) rest h = ground (arith, h.0, find_dot-digits s rest h.1)

digits-AllDigits : (n : ℕ) → AllDigits (digits n)
unfolding digits
digits-AllDigits n = digits_loop-AllDigits (n + 1) n

after_dot-digits : (n : ℕ) (rest : List ℕ) → after_dot (digits n ++ (b'.' ∷ rest)) ≡ rest
unfolding after_dot
after_dot-digits n rest = rw (after_dot, find_dot-digits (digits n) rest (digits-AllDigits n)) refl

before_dot_number : (n : ℕ) (rest : List ℕ) → before_dot (digits n ++ (b'.' ∷ rest)) ≡ digits n
before_dot_number n rest = before_dot-digits (digits n) rest (digits-AllDigits n)

atoi-digits : (n : ℕ) → n < 2 ^ 31 → atoi (digits n) ≡ pos n
unfolding digits
atoi-digits n h =
    rw
      (
        atoi-AllDigits (digits n) (digits_loop-AllDigits (n + 1) n),
        digits_value-digits_loop (n + 1) n (omega arith),
      )
      (ground arith)

-- The four numbers are bytes.
pub record InRange (a : NsIpAddress) : Type 0 where
  pub ipp1 : a.ipp1 < 256
  pub ipp2 : a.ipp2 < 256
  pub ipp3 : a.ipp3 < 256
  pub ipp4 : a.ipp4 < 256

mod_byte : (n : ℕ) → n < 256 → n % 256 ≡ n
mod_byte n h = omega arith

wrap_lt : (n : ℤ) → wrap 256 n < 256
wrap_lt n = ground arith

find_dot-none : (s : List ℕ) → All (λ c. (c == b'.') ≡ false) s → find_dot s ≡ none
unfolding find_dot
find_dot-none [] h = refl
find_dot-none (c ∷ s) h = ground (arith, h.0, find_dot-none s h.1)

before_dot_none : (s : List ℕ) → All (λ c. (c == b'.') ≡ false) s → before_dot s ≡ s
unfolding before_dot
before_dot_none [] h = refl
before_dot_none (c ∷ s) h = ground (arith, h.0, before_dot_none s h.1)

after_dot_none : (s : List ℕ) → All (λ c. (c == b'.') ≡ false) s → after_dot s ≡ s
unfolding after_dot
after_dot_none s h = rw (after_dot, find_dot-none s h) refl

-- An address whose four numbers are bytes, output in dotted form, is parsed as itself.
pub parse_ip_string-dotted : (a : NsIpAddress) → InRange a → parse_ip_string (dotted a) ≡ a
unfolding parse_ip_string dotted
parse_ip_string-dotted a h =
    let r₃ = digits a.ipp3 ++ (b'.' ∷ digits a.ipp4) in
    let r₂ = digits a.ipp2 ++ (b'.' ∷ r₃) in
    rw
      (
        after_dot-digits a.ipp1 r₂,
        after_dot-digits a.ipp2 r₃,
        after_dot-digits a.ipp3 (digits a.ipp4),
        before_dot_number a.ipp1 r₂,
        before_dot_number a.ipp2 r₃,
        before_dot_number a.ipp3 (digits a.ipp4),
        atoi-digits a.ipp1 (omega (arith, h.ipp1)),
        atoi-digits a.ipp2 (omega (arith, h.ipp2)),
        atoi-digits a.ipp3 (omega (arith, h.ipp3)),
        atoi-digits a.ipp4 (omega (arith, h.ipp4)),
      )
      (rw
        (
          mod_byte a.ipp1 h.ipp1,
          mod_byte a.ipp2 h.ipp2,
          mod_byte a.ipp3 h.ipp3,
          mod_byte a.ipp4 h.ipp4,
        )
        refl)

-- A text without a dot: its number, as a byte, becomes all four numbers, and nothing is reported.
parse_ip_string_no_dot :
    (s : List ℕ)
    → All (λ c. (c == b'.') ≡ false) s
    → (b : ℕ) × (b < 256) × (parse_ip_string s ≡ record { ipp1 = b; ipp2 = b; ipp3 = b; ipp4 = b })
unfolding parse_ip_string
parse_ip_string_no_dot s h =
    let e = after_dot_none s h in
    (wrap 256 (atoi s), wrap_lt (atoi s), rw (e, e, e, before_dot_none s h) refl)
