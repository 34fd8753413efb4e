-- ===== src/Tests.antt =====
-- Runs of the model at concrete inputs.
mod ListSets
mod Runs
mod Daemon
mod Codec
mod Io
mod Buffers
mod Sets
mod RoundTrip
mod Connecting
mod Choosing
mod Acquiring
mod Serving
mod Handles
mod Pipelines
mod Client
mod Wakeups
mod Lives
mod Accepting
mod Journey
mod Endings
mod Rounds
mod Untrusted
