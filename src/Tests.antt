-- ===== src/Tests.antt =====
-- The theorems at concrete data, and runs of the definitions.
mod Samples
mod GroupRuns
mod GsuiteRuns
mod ControllerRuns
mod SettledRuns
mod DeclaredRuns
mod CopyRuns
mod ClientRuns
mod ClientSetRuns
mod CommandRuns
mod QueueRuns
mod SystemRuns
mod EventRuns
mod InformerRuns
