-- ===== src/Tests.antt =====
-- Runs of the modelled code on concrete inputs, and the theorems at concrete inputs.
mod BdfRuns
mod RecordRuns
mod TransportRuns
mod SyncRuns
mod RelayRuns
mod CryptoRuns
mod KeysRuns
mod MessageRuns
mod IdentityRuns
mod HandshakeRuns
mod ContactRuns
mod QueueRuns
