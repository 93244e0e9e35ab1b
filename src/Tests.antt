-- ===== src/Tests.antt =====
-- The theorems at concrete inputs.
mod Samples
mod OfStorage
mod OfEngine
mod OfWebhook
mod OfDelivery
mod OfService
mod OfBroker
mod FlowSamples
mod OfExecutions
mod OfFlow
mod OfValidation
