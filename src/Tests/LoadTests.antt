-- ===== src/Tests/LoadTests.antt =====
-- The theorem about the load test, at the samples.
