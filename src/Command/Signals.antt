-- ===== src/Command/Signals.antt =====
-- setupSignalHandler of cmd/rbacsync/main.go: the channel of signals and the goroutine that reads it,
-- as a machine that takes one step at a time.
pub mod Laws
use rbacsync.Prelude.{ℕ, zero, suc, Bool, true, false, Option, none, some, ◌≡◌}

-- Where the goroutine is: in front of the first `<-c`, of `close(stop)`, of the second `<-c`, of
-- `os.Exit(1)`, or the program has ended.
pub data Phase : Type 0 where
  first_receive closing second_receive exiting exited : Phase

pub record Signals : Type 0 where
  pub buffered : ℕ
  pub phase : Phase
  pub stop_closed : Bool

-- setupSignalHandler, given whether `onlyOneSignalHandler` is closed: to close it again panics.
unfoldable pub setup_signal_handler : Bool → Option Signals
setup_signal_handler true = none
setup_signal_handler false =
    some (record { buffered = 0; phase = first_receive; stop_closed = false })

-- A signal comes in. The channel has room for two, and os/signal does not wait for room.
unfoldable pub notify : Signals → Signals
notify s = elim s.buffered [
  | zero ↦ record s { buffered = 1 }
  | suc zero ↦ record s { buffered = 2 }
  | suc (suc n) ↦ s
]

-- A step of the goroutine, or none while it is blocked.
pub advance_from : Phase → ℕ → Signals → Option Signals
advance_from first_receive zero s = none
advance_from first_receive (suc n) s = some (record s { buffered = n; phase = closing })
advance_from closing n s = some (record s { phase = second_receive; stop_closed = true })
advance_from second_receive zero s = none
advance_from second_receive (suc n) s = some (record s { buffered = n; phase = exiting })
advance_from exiting n s = some (record s { phase = exited })
advance_from exited n s = none

unfoldable pub advance : Signals → Option Signals
unfolding advance_from
advance s = advance_from s.phase s.buffered s

-- So many steps of the goroutine, or as many as it can do.
unfoldable pub advance_all : ℕ → Signals → Signals
unfolding advance
advance_all zero s = s
advance_all (suc fuel) s = elim (advance s) [ none ↦ s | some t ↦ advance_all fuel t ]

-- The states that the machine can get to when so many signals have come in.
pub data Reaches : ℕ → Signals → Type 0 where
  set_up : {s : Signals} → setup_signal_handler false ≡ some s → Reaches 0 s
  notified : {n : ℕ} {s : Signals} → Reaches n s → Reaches (suc n) (notify s)
  advanced : {n : ℕ} {s t : Signals} → Reaches n s → advance s ≡ some t → Reaches n t
