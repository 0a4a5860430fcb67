-- ===== src/Browser.antt =====
-- internal/browser: the budget of the safety proxy between the browser and the network, and the capture of
-- what the browser observes.
pub mod Budget
pub mod Capture
pub mod Analyzer
pub mod Headers
