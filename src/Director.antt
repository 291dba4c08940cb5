-- ===== src/Director.antt =====
-- The test director (src/tools/extended-test-framework/test_director/handlers): a server that keeps test
-- plans, test runs and events in three caches, and reports to Xray and Slack.
-- This file has its state and its answers; the children have one cache or group of handlers each.
pub mod TestPlanCache
pub mod TestRunCache
pub mod TestPlans
pub mod TestRuns
pub mod Events
pub mod ActivePlan
pub mod SoundPlans
pub mod PutPlan
pub mod DeletePlans
pub mod RunWrites
pub mod RunMoves
pub mod RunEffects
pub mod RunEnds
pub mod NewRun
pub mod EventEffects
pub mod EventAnswers
pub mod Server
pub mod Histories
pub mod RunHistories
use mayastor_e2e.Prelude.{ℕ, String, List, [], Bool}
use mayastor_e2e.Models.{TestPlan, TestRun, Event}
use mayastor_e2e.Connectors.Slack.{Post}
use mayastor_e2e.Cache.{Cache, Codec}

-- What the director is built on: go-cache and the JSON encoding of its records.
pub record Platform : Type 1 where
  pub Bytes : Type 0
  pub cache : Cache Bytes
  pub plan_codec : Codec Bytes TestPlan
  pub run_codec : Codec Bytes TestRun
  pub event_codec : Codec Bytes Event

-- config.ServerConfig, and the environment variable SLACK_WEB_HOOK.
pub record ServerConfig : Type 0 where
  pub default_test_plan : String
  pub slack_notification : Bool
  pub slack_web_hook : String

pub record State (p : Platform) : Type 0 where
  pub plans : p.cache.Store
  pub runs : p.cache.Store
  pub events : p.cache.Store
  pub posts : List Post  -- what went to Slack, newest first

pub data RequestResult : Type 0 where
  done refused : RequestResult

pub record RequestOutcome : Type 0 where
  pub details : String
  pub items_affected : ℕ
  pub result : RequestResult

-- The responders of the generated API.
pub data Response : Type 0 where
  plan_list : List TestPlan → Response
  plan_body : TestPlan → Response
  run_list : List TestRun → Response
  run_body : TestRun → Response
  event_list : List Event → Response
  event_body : Event → Response
  outcome : RequestOutcome → Response
  bad_request : RequestOutcome → Response
  no_content not_found : Response

-- badRequestResponse, testPlanBadRequest
abbrev pub refuse : String → Response
refuse e = bad_request (record { details = e; items_affected = 1; result = refused })
