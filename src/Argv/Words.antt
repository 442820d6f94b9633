-- ===== src/Argv/Words.antt =====
-- `argv_prep_format`: the words of a format, and the delimiter between them.
use treiber.Base.{
  ℕ, ◌+◌, ◌<◌, ◌≡◌, true, false, List, [], ◌∷◌, ◌++◌, arith, length, ◌==◌, if◌then◌else◌,
}
use treiber.Base.Words.{size_mod}
use treiber.Argv.{prep_loop, argv_prep_format}

-- A word, if it has a character, in front of others.
abbrev pub cons_word : List ℕ → List (List ℕ) → List (List ℕ)
cons_word [] ws = ws
cons_word (c ∷ w) ws = (c ∷ w) ∷ ws

-- The characters up to the first space, and the words behind it.
unfoldable pub scan : List ℕ → List ℕ × List (List ℕ)
scan [] = ([], [])
scan (c ∷ s) = let (w, ws) = scan s in if c == 32 then ([], cons_word w ws) else (c ∷ w, ws)

-- The longest runs of characters other than the space.
unfoldable pub words : List ℕ → List (List ℕ)
unfolding scan
words s = cons_word (scan s).0 (scan s).1

-- Each word with the delimiter in front of it.
unfoldable pub delimited : ℕ → List (List ℕ) → List ℕ
delimited delim [] = []
delimited delim (w ∷ ws) = delim ∷ (w ++ delimited delim ws)

-- The words with the delimiter between them.
unfoldable pub between : ℕ → List (List ℕ) → List ℕ
unfolding delimited
between delim [] = []
between delim (w ∷ ws) = w ++ delimited delim ws

-- The loop inside a word, and outside of words behind the first one.
prep_loop_lem :
    (s : List ℕ) (delim n : ℕ)
    → n + length s < size_mod
    → (prep_loop s delim true true n
        ≡ ((scan s).0 ++ delimited delim (scan s).1, n + length (scan s).1))
      × (prep_loop s delim false true n ≡ (delimited delim (words s), n + length (words s)))
unfolding prep_loop scan words delimited
prep_loop_lem [] delim n h = (ground arith, ground arith)
prep_loop_lem (c ∷ s) delim n h =
    let r = prep_loop_lem s delim n (omega arith) in
    let r' = prep_loop_lem s delim (n + 1) (omega arith) in
    (ground (arith, r.0, r.1), ground (arith, r.1, r'.0))

prep_start :
    (s : List ℕ) (delim n : ℕ)
    → n + length s < size_mod
    → prep_loop s delim false false n ≡ (between delim (words s), n + length (words s))
unfolding prep_loop scan words between
prep_start [] delim n h = ground arith
prep_start (c ∷ s) delim n h =
    let r' = prep_loop_lem s delim (n + 1) (omega arith) in
    ground (arith, prep_start s delim n, r'.0)

-- `argv_prep_format` leaves the words of the format with the delimiter between them, and adds their
-- number to the count.
pub prep_format_lem :
    (s : List ℕ) (delim n : ℕ)
    → n + length s < size_mod
    → argv_prep_format s delim n ≡ (between delim (words s), n + length (words s))
unfolding argv_prep_format
prep_format_lem s delim n h = prep_start s delim n h
