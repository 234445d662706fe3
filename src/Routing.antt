-- ===== src/Routing.antt =====
-- Which tests the pytest gate runs: scripts/am_patch/pytest_namespace_config.py,
-- pytest_namespace_routing.py and pytest_bucket_routing.py. What the discovery reads from the test
-- files, the owners of each test, is an argument.
pub mod Config
pub mod Closure
pub mod Reverse
pub mod Search
pub mod Reach
pub mod Match
pub mod Select
pub mod Coverage
