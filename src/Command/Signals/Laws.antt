-- ===== src/Command/Signals/Laws.antt =====
-- What one and what two signals do.
use rbacsync.Prelude.{
  Option-cases, ℕ, zero, suc, ◌+◌, ◌≤◌, Bool, true, false, none, some, ◌≡◌, ◌⊎◌, inl, inr, arith,
}
use rbacsync.Command.Signals.{
  Phase, first_receive, closing, second_receive, exiting, exited, Signals, setup_signal_handler,
  notify, advance_all, advance, Reaches, set_up, notified, advanced,
}

-- How many signals the goroutine has read, and whether it has closed the channel.
abbrev taken : Phase → ℕ
taken first_receive = 0
taken closing = 1
taken second_receive = 1
taken exiting = 2
taken exited = 2

abbrev has_closed : Phase → Bool
has_closed first_receive = false
has_closed closing = false
has_closed second_receive = true
has_closed exiting = true
has_closed exited = true

-- No signal of the first two is lost, and none is made up.
record IsSound (n : ℕ) (s : Signals) : Type 0 where
  kept : (taken s.phase + s.buffered ≡ n) ⊎ ((2 ≤ taken s.phase + s.buffered) × (2 ≤ n))
  stop : s.stop_closed ≡ has_closed s.phase

-- What so many signals come to once the goroutine can do no more.
abbrev pub outcome : ℕ → Phase × Bool
outcome zero = (first_receive, false)
outcome (suc zero) = (second_receive, true)
outcome (suc (suc n)) = (exited, true)

notify-IsSound : (n : ℕ) (s : Signals) → IsSound n s → IsSound (suc n) (notify s)
unfolding notify
notify-IsSound n s i = record { kept = ground arith; stop = ground arith }

advance-IsSound : (n : ℕ) (s t : Signals) → IsSound n s → advance s ≡ some t → IsSound n t
unfolding advance
advance-IsSound n s t i h = record { kept = ground arith; stop = ground arith }

Reaches-IsSound : {n : ℕ} {s : Signals} → Reaches n s → IsSound n s
unfolding setup_signal_handler
Reaches-IsSound (set_up h) = record { kept = ground arith; stop = ground arith }
Reaches-IsSound (notified r) = notify-IsSound _ _ (Reaches-IsSound r)
Reaches-IsSound (advanced r h) = advance-IsSound _ _ _ (Reaches-IsSound r) h

Reaches-outcome :
    {n : ℕ} {s : Signals} → Reaches n s → advance s ≡ none → (s.phase, s.stop_closed) ≡ outcome n
unfolding advance
Reaches-outcome r h = let i = Reaches-IsSound r in ground arith

advance_all-Reaches :
    (fuel : ℕ) {n : ℕ} {s : Signals} → Reaches n s → Reaches n (advance_all fuel s)
unfolding advance_all
advance_all-Reaches zero r = r
advance_all-Reaches (suc fuel) {s = s} r = elim (Option-cases (advance s)) [
  | inl blocked ↦ rw (advance_all, blocked) r
  | inr (t, moved) ↦ rw (advance_all, moved) (advance_all-Reaches fuel (advanced r moved))
]

advance_all-rests : (s : Signals) → advance (advance_all 4 s) ≡ none
unfolding advance_all advance
advance_all-rests s = ground arith

-- In whatever order the signals come in and the goroutine runs, at most four more steps of the
-- goroutine end in a state in which it is blocked or the program has ended, and then: without a
-- signal the stop channel is open, one signal has closed it, and after two or more the program has
-- ended.
pub advance_all-outcome :
    {n : ℕ} {s : Signals}
    → Reaches n s
    → (advance (advance_all 4 s) ≡ none)
      × (((advance_all 4 s).phase, (advance_all 4 s).stop_closed) ≡ outcome n)
advance_all-outcome {s = s} r =
    (advance_all-rests s, Reaches-outcome (advance_all-Reaches 4 r) (advance_all-rests s))
