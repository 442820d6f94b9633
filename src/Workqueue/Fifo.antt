-- ===== src/Workqueue/Fifo.antt =====
-- What the queue between the workers promises: a first-in-first-out queue of at most `limit`
-- packets that drops what does not fit, and that hands out nothing once it is released.
use treiber.Base.{
  ℕ, ◌≡◌, Bool, true, List, [], ◌∷◌, ◌++◌, map, some, length, take, drop, ltb, ◌==◌, if◌then◌else◌,
  refl, sym, ap, ◌∙◌, inl, inr, Bool-cases, append-nil, append_assoc, map-append, take-append-drop,
}
use treiber.Workqueue.{WorkPacket, Pointer, Popped, waits, nothing, out_of_bounds, got}
use treiber.Workqueue.{Section, insert, take_some, take_all, release}

pub record Fifo : Type 0 where
  pub limit : ℕ
  pub packets : List WorkPacket
  pub closed : Bool

-- A consumer: it waits on an open queue with nothing in it.
unfoldable pub serve : ℕ → Fifo → Popped (List Pointer) × Fifo
serve n f =
    if f.closed
    then (nothing, f)
    else if length f.packets == 0
    then (waits, f)
    else (got (map some (take n f.packets)), record f { packets = drop n f.packets })

unfoldable pub step : Section → Fifo → Popped (List Pointer) × Fifo
unfolding serve
step (insert p) f = (
  nothing,
  if ltb (length f.packets) f.limit then record f { packets = f.packets ++ (p ∷ []) } else f,
)
step (take_some n) f = serve n f
step take_all f = serve (length f.packets) f
step release f = (nothing, record f { closed = true })

unfoldable pub run : List Section → Fifo → List (Popped (List Pointer)) × Fifo
run [] f = ([], f)
run (s ∷ ss) f = let (r, f') = step s f in let (rs, f'') = run ss f' in (r ∷ rs, f'')

-- All that the consumers were handed, in order.
unfoldable pub delivered : List (Popped (List Pointer)) → List Pointer
delivered [] = []
delivered (got ps ∷ rs) = ps ++ delivered rs
delivered (_ ∷ rs) = delivered rs

-- The packets that were inserted while there was room.
unfoldable pub accepted : List Section → Fifo → List WorkPacket
accepted [] f = []
accepted (insert p ∷ ss) f =
    let rest = accepted ss (step (insert p) f).1 in
    if ltb (length f.packets) f.limit then p ∷ rest else rest
accepted (s ∷ ss) f = accepted ss (step s f).1

delivered-cons :
    (r : Popped (List Pointer)) (rs : List (Popped (List Pointer)))
    → delivered (r ∷ rs) ≡ delivered (r ∷ []) ++ delivered rs
unfolding delivered
delivered-cons waits rs = refl
delivered-cons out_of_bounds rs = refl
delivered-cons nothing rs = refl
delivered-cons (got ps) rs = ap (λ qs. qs ++ delivered rs) (sym (append-nil ps))

serve-append :
    (n : ℕ) (f : Fifo)
    → delivered ((serve n f).0 ∷ []) ++ map some (serve n f).1.packets ≡ map some f.packets
unfolding serve delivered
serve-append n f = elim (Bool-cases f.closed) [
  | inl e ↦ rw e
  | inr e ↦ elim (Bool-cases (length f.packets == 0)) [
    | inl z ↦ rw (e, z)
    | inr z ↦ rw (e, z, append-nil, ← map-append) (ap (map some) (take-append-drop n f.packets))
  ]
]

-- A consumer in front of a run.
serve_step :
    (n : ℕ) (f : Fifo) (rs : List (Popped (List Pointer))) (rest more : List Pointer)
    → delivered rs ++ rest ≡ map some (serve n f).1.packets ++ more
    → delivered ((serve n f).0 ∷ rs) ++ rest ≡ map some f.packets ++ more
serve_step n f rs rest more e =
    ap (λ d. d ++ rest) (delivered-cons (serve n f).0 rs)
    ∙ append_assoc (delivered ((serve n f).0 ∷ [])) (delivered rs) rest
    ∙ ap (λ d. delivered ((serve n f).0 ∷ []) ++ d) e
    ∙ sym (append_assoc (delivered ((serve n f).0 ∷ [])) (map some (serve n f).1.packets) more)
    ∙ ap (λ d. d ++ more) (serve-append n f)

-- What was handed out, and then what is left, is what was there and then what was accepted.
pub delivered-append-packets :
    (ss : List Section) (f : Fifo)
    → delivered (run ss f).0 ++ map some (run ss f).1.packets
      ≡ map some f.packets ++ map some (accepted ss f)
unfolding run delivered accepted step
delivered-append-packets [] f = sym (append-nil (map some f.packets))
delivered-append-packets (insert p ∷ ss) f = elim (Bool-cases (ltb (length f.packets) f.limit)) [
  | inl e ↦ rw e (
      delivered-append-packets ss (record f { packets = f.packets ++ (p ∷ []) })
      ∙ rw (map-append, append_assoc))
  | inr e ↦ rw e (delivered-append-packets ss f)
]
delivered-append-packets (take_some n ∷ ss) f =
    serve_step n f _ _ _ (delivered-append-packets ss (serve n f).1)
delivered-append-packets (take_all ∷ ss) f =
    serve_step (length f.packets) f _ _ _
      (delivered-append-packets ss (serve (length f.packets) f).1)
delivered-append-packets (release ∷ ss) f = delivered-append-packets ss (record f { closed = true })
