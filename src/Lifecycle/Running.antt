-- ===== src/Lifecycle/Running.antt =====
-- When `is_running` turns false, and that it stays so.
use libmoon.Prelude.{
  ℕ, ◌+◌, ◌*◌, ◌/◌, ◌^◌, ◌≤◌, ◌<◌, ◌≡◌, ◌↔◌, true, false, Option, none, some, List, [], ◌∷◌, arith,
}
use libmoon.Lifecycle.{
  Lifecycle, never, handler, is_running, set_runtime, Event, signal, runtime, react,
}

-- The cycles of `extra_time` milliseconds, where the product does not wrap.
abbrev pub cycles : ℕ → ℕ → ℕ
cycles hz extra_time = extra_time * hz / 1000

-- A task that asks for `extra_time` more milliseconds is running exactly until that long after the
-- signal and after the end of the run time, if the clock has run that long and the product has 64
-- bits.
is_running_iff :
    (hz now extra_time : ℕ) (l : Lifecycle)
    → now < 2 ^ 64
    → extra_time * hz < 2 ^ 64
    → cycles hz extra_time ≤ now
    → (is_running hz now extra_time l ≡ true)
      ↔ ((now < l.signal_at + cycles hz extra_time) × (now < l.stop_at + cycles hz extra_time))
unfolding is_running
is_running_iff hz now extra_time l h p up = ground arith

-- On a machine that has been up for less than the extra time, the difference wraps: a run whose end
-- lies ahead, by no more than 2 ^ 64 less the extra time, is over at once for the tasks that ask for
-- the extra time.
is_running_wraps :
    (hz now extra_time : ℕ) (l : Lifecycle)
    → extra_time * hz < 2 ^ 64
    → now < cycles hz extra_time
    → l.stop_at + cycles hz extra_time ≤ now + 2 ^ 64
    → is_running hz now extra_time l ≡ false
unfolding is_running
is_running_wraps hz now extra_time l p early stop = ground arith

-- A sequence of signals and calls of `set_runtime`, each with its time; `none` is an abort.
unfoldable pub replay : ℕ → List (ℕ × Event) → Lifecycle → Option Lifecycle
replay hz [] l = some l
replay hz ((now, e) ∷ es) l = elim (react hz now e l) [ none ↦ none | some l' ↦ replay hz es l' ]

replay-signal_at :
    (hz s : ℕ) (es : List (ℕ × Event)) (l : Lifecycle) {end : Lifecycle}
    → s < never
    → l.signal_at ≡ s
    → replay hz es l ≡ some end
    → end.signal_at ≡ s
unfolding replay handler set_runtime
replay-signal_at hz s [] l h e done = ground arith
replay-signal_at hz s ((now, signal) ∷ es) l h e done = ground arith
replay-signal_at hz s ((now, runtime t) ∷ es) l h e done =
    replay-signal_at hz s es (set_runtime hz now t l) h e done

-- After a signal at time `s`, whatever calls of `set_runtime` come after it, no task is running
-- without extra time from `s` on, unless a second signal has aborted the program.
pub signal_is_final :
    (hz s now : ℕ) (es : List (ℕ × Event)) (l signalled : Lifecycle) {end : Lifecycle}
    → s < never
    → s ≤ now
    → now < 2 ^ 64
    → handler s l ≡ some signalled
    → replay hz es signalled ≡ some end
    → is_running hz now 0 end ≡ false
unfolding is_running handler
signal_is_final hz s now es l signalled h after w first done =
    let at : signalled.signal_at ≡ s = ground arith in
    ground (arith, replay-signal_at hz s es signalled h at done)
