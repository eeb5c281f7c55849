-- ===== src/Tests.antt =====
-- Runs of the model at concrete inputs, and the theorems applied to them.
mod Response
mod Request
mod Worker
mod Owner
mod Race
mod Thread
mod Exchange
mod Arrived
mod Fetched
mod Chunked
mod Posted
mod Gz
mod RoundTrip
