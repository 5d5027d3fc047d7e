-- ===== src/Tests.antt =====
-- The theorems at concrete inputs, and runs of the definitions.
mod Sample
mod Buffers
mod Times
mod Serving
mod Sending
mod Replies
mod Arguments
mod Runs
mod Sorting
mod Reports
mod Programs
mod Pipe
mod Echoing
mod Streams
mod Deviations
