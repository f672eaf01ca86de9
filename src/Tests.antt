-- ===== src/Tests.antt =====
-- Concrete inputs: tests of the definitions, and each theorem at an input that meets its hypotheses.
mod Consumer
mod Boot
mod Coordinators
mod Server
mod Producer
mod Redis
mod Mqtt
mod Encryption
mod Validation
mod Client
mod Connection
mod Rates
mod Together
mod Configured
