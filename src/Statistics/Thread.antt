-- ===== src/Statistics/Thread.antt =====
-- What a statement of the thread keeps.
use treiber.Base.{
  ℕ, zero, suc, ◌+◌, ◌≡◌, refl, sym, ap, ◌∙◌, Bool, true, false, not, ◌&&◌, some, arith, bind_some,
}
use mathlib.Core.Option.{some-injective}
use mathlib.Core.Bool.{false≢true}
use mathlib.Core.Path.{subst}
use treiber.Statistics.{
  Statistics, add_int, Statement, keep_recieved, keep_sent, reset_recieved, reset_sent,
  add_recieved, add_sent, most_recieved, most_sent, count_second, next, Counting, tick, ticks,
  statement,
}

-- The bytes that the counters hold: what the thread has kept of the current second and not yet added is
-- in `bits_sent_last_second`.
abbrev pub held : Statement → Statistics → ℕ
held keep_recieved s = s.bits_sent_overall + s.bits_sent_current_second
held keep_sent s = s.bits_sent_overall + s.bits_sent_current_second
held reset_recieved s = s.bits_sent_overall + s.bits_sent_last_second
held reset_sent s = s.bits_sent_overall + s.bits_sent_last_second
held add_recieved s = s.bits_sent_overall + s.bits_sent_last_second + s.bits_sent_current_second
held add_sent s = s.bits_sent_overall + s.bits_sent_last_second + s.bits_sent_current_second
held most_recieved s = s.bits_sent_overall + s.bits_sent_current_second
held most_sent s = s.bits_sent_overall + s.bits_sent_current_second
held count_second s = s.bits_sent_overall + s.bits_sent_current_second

-- Whether the thread has kept the bytes of the current second and not yet reset them.
abbrev pub kept : Statement → Bool
kept keep_recieved = false
kept keep_sent = false
kept reset_recieved = true
kept reset_sent = true
kept add_recieved = false
kept add_sent = false
kept most_recieved = false
kept most_sent = false
kept count_second = false

-- The statement behind a number of them, and whether the thread is outside of that on the way.
unfoldable pub after : ℕ → Statement → Statement
after zero i = i
after (suc k) i = after k (next i)

unfoldable pub outside : ℕ → Statement → Bool
outside zero i = not (kept i)
outside (suc k) i = not (kept i) && outside k (next i)

-- A statement keeps what the counters hold, and the number of packets; one outside keeps the counter.
pub record Keeps (i : Statement) (s s' : Statistics) : Type 0 where
  pub same : held (next i) s' ≡ held i s
  pub packets : s'.udp_packets_sent ≡ s.udp_packets_sent
  pub current : kept i ≡ false → s'.bits_sent_current_second ≡ s.bits_sent_current_second

statement-Keeps : (i : Statement) (s s' : Statistics) → statement i s ≡ some s' → Keeps i s s'
unfolding statement
statement-Keeps keep_recieved s s' h =
    subst (Keeps keep_recieved s) (some-injective _ s' h)
      (record { same = omega arith; packets = refl; current = λ _. refl })
statement-Keeps keep_sent s s' h =
    subst (Keeps keep_sent s) (some-injective _ s' h)
      (record { same = omega arith; packets = refl; current = λ _. refl })
statement-Keeps reset_recieved s s' h =
    subst (Keeps reset_recieved s) (some-injective _ s' h)
      (record { same = omega arith; packets = refl; current = λ _. refl })
statement-Keeps reset_sent s s' h =
    subst (Keeps reset_sent s) (some-injective _ s' h)
      (record { same = omega arith; packets = refl; current = λ e. absurd (false≢true (sym e)) })
statement-Keeps add_recieved s s' h =
    subst (Keeps add_recieved s) (some-injective _ s' h)
      (record { same = omega arith; packets = refl; current = λ _. refl })
statement-Keeps add_sent s s' h =
    subst (Keeps add_sent s) (some-injective _ s' h)
      (record { same = omega arith; packets = refl; current = λ _. refl })
statement-Keeps most_recieved s s' h =
    subst (Keeps most_recieved s) (some-injective _ s' h)
      (record { same = omega arith; packets = refl; current = λ _. refl })
statement-Keeps most_sent s s' h =
    subst (Keeps most_sent s) (some-injective _ s' h)
      (record { same = omega arith; packets = refl; current = λ _. refl })
statement-Keeps count_second s s' h =
    let (n, e, g) = bind_some (add_int s.operating_seconds 1) _ s' h in
    subst (Keeps count_second s) (some-injective _ s' g)
      (record { same = refl; packets = refl; current = λ _. refl })

-- So do the statements that come in between.
pub record Continues (k : ℕ) (c c' : Counting) : Type 0 where
  pub reached : c'.at ≡ after k c.at
  pub same : held c'.at c'.stats ≡ held c.at c.stats
  pub packets : c'.stats.udp_packets_sent ≡ c.stats.udp_packets_sent
  pub current :
      outside k c.at ≡ true
      → (c'.stats.bits_sent_current_second ≡ c.stats.bits_sent_current_second)
        × (kept c'.at ≡ false)

pub tick-Continues :
    (c c' : Counting) → tick c ≡ some c' → Keeps c.at c.stats c'.stats × (c'.at ≡ next c.at)
unfolding tick
tick-Continues c c' h =
    let (s, e, g) = bind_some (statement c.at c.stats) _ c' h in
    subst (λ (x : Counting). Keeps c.at c.stats x.stats × (x.at ≡ next c.at))
      (some-injective _ c' g) (statement-Keeps c.at c.stats s e, refl)

pub ticks-Continues : (k : ℕ) (c c' : Counting) → ticks k c ≡ some c' → Continues k c c'
unfolding ticks after outside
ticks-Continues zero c c' h = subst (Continues zero c) (some-injective _ c' h) (record {
  reached = refl;
  same = refl;
  packets = refl;
  current = λ o. (refl, ground (arith, o));
})
ticks-Continues (suc k) c c' h =
    let (d, e, g) = bind_some (tick c) (ticks k) c' h in
    let (t, at) = tick-Continues c d e in
    let r = ticks-Continues k d c' g in
    record {
      reached = r.reached ∙ ap (after k) at;
      same = r.same ∙ ap (λ i. held i d.stats) at ∙ t.same;
      packets = r.packets ∙ t.packets;
      current = λ o.
          let out : outside k d.at ≡ true = ap (outside k) at ∙ ground (arith, o) in
          ((r.current out).0 ∙ t.current (ground (arith, o)), (r.current out).1);
    }
