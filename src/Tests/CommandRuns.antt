-- ===== src/Tests/CommandRuns.antt =====
-- The theorems on main and on the signal handler, at concrete data.
use rbacsync.Prelude.{String, string_eq, ◌≡◌, refl, Bool, true, false, Option, none}
use rbacsync.Groups.Subjects.Laws.{forward}
use rbacsync.Integers.{pos}
use rbacsync.Command.{GsuiteFlags}
use rbacsync.Command.Startup.{BaseFlags, main}
use rbacsync.Command.Startup.Laws.{Outcome, main_lem}
use rbacsync.Command.Signals.{
  Phase, exited, first_receive, Signals, setup_signal_handler, notify, advance, advance_all,
  Reaches, set_up, notified,
}
use rbacsync.Command.Signals.Laws.{advance_all-outcome}
use rbacsync.Tests.GsuiteRuns.{directory, desk}
use rbacsync.Tests.Samples.{Failure, failures}

abbrev base : BaseFlags
base = record {
  kubeconfig = "/home/.kube/config";
  show_version = false;
  debug_addr = ":8080";
  poll_period = pos 300000000000;
}

abbrev gsuite : GsuiteFlags
gsuite = record {
  enabled = false;
  credentials_path = "";
  delegator = "";
  pattern = "";
  timeout = pos 30000000000;
}

abbrev no_failure : String → Option Failure
no_failure config = none

main_lem_example :
    Outcome failures desk directory forward no_failure no_failure base gsuite true tt
      (main failures desk directory forward no_failure no_failure base gsuite true tt)
main_lem_example =
    main_lem failures desk directory forward no_failure no_failure base gsuite true tt

abbrev at_first : Signals
at_first = record { buffered = 0; phase = first_receive; stop_closed = false }

-- Two signals come in before the goroutine runs.
abbrev signaled : Signals
signaled = notify (notify at_first)

signaled-Reaches : Reaches 2 signaled
unfolding setup_signal_handler
signaled-Reaches = notified (notified (set_up refl))

advance_all-outcome_example :
    (advance (advance_all 4 signaled) ≡ none)
    × ◌≡◌ {A = Phase × Bool}
        ((advance_all 4 signaled).phase, (advance_all 4 signaled).stop_closed)
        (exited, true)
advance_all-outcome_example = advance_all-outcome signaled-Reaches
