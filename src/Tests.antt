-- ===== src/Tests.antt =====
-- Runs at concrete inputs, and the theorems at inputs that meet their hypotheses.
mod CreditRuns
mod LedgerRuns
mod SessionRuns
mod FrameRuns
mod PolicyRuns
mod EnvelopeRuns
mod BatchRuns
mod ConnectionRuns
mod ClientRuns
mod DeduperRuns
mod CodecRuns
mod TokenRuns
