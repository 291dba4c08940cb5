-- ===== src/Connectors.antt =====
-- The test director's clients of other services: Jira, Xray and Slack
-- (src/tools/extended-test-framework/test_director/connectors). What the services answer is a parameter,
-- the `World` of mayastor_e2e.World.
pub mod Jira
pub mod Xray
pub mod Slack
