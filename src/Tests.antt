-- ===== src/Tests.antt =====
-- Runs at concrete data, and the theorems at inputs where their hypotheses hold.
pub mod Data
pub mod TypesTests
pub mod ToolTests
pub mod AgentTests
pub mod HttpTests
pub mod JsonTests
pub mod ProviderTests
pub mod PostingTests
pub mod TypedTests
pub mod ExampleTests
pub mod HandleTests
pub mod AnswerTests
pub mod BrokenTests
pub mod TextTests
pub mod AcceptedTests
