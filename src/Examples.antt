-- ===== src/Examples.antt =====
-- Concrete inputs: tests of the definitions, and each theorem at an input that meets its
-- hypotheses.
mod HistoryExamples
mod DiffExamples
mod RoutingExamples
mod WorkingCopyExamples
mod AgentExamples
mod SharingExamples
mod GatewayExamples
mod RetentionExamples
mod DaemonExamples
mod StoreExamples
mod AnchorExamples
