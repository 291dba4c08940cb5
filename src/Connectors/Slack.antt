-- ===== src/Connectors/Slack.antt =====
-- src/tools/extended-test-framework/test_director/connectors/slack.go: messages posted to a web hook.
use mayastor_e2e.Prelude.{ℕ, String, ◌==◌, List, [], ◌∷◌, Outcome, ok, err, if◌then◌else◌, eqb}
use mayastor_e2e.Models.{DateTime}
use mayastor_e2e.World.{Reply, unbuilt, refused, unread, replied}

abbrev pub default_slack_timeout : ℕ
default_slack_timeout = 15  -- seconds

pub record SlackClient : Type 0 where
  pub web_hook_url : String
  pub user_name : String
  pub channel : String
  pub time_out : ℕ  -- seconds

pub record SimpleSlackRequest : Type 0 where
  pub text : String
  pub icon_emoji : String

pub record SlackJobNotification : Type 0 where
  pub color : String
  pub icon_emoji : String
  pub details : String
  pub text : String

-- The fields that the client sets; `ts` is the moment of sending.
pub record Attachment : Type 0 where
  pub color : String
  pub text : String
  pub ts : DateTime

pub record SlackMessage : Type 0 where
  pub username : String
  pub icon_emoji : String
  pub channel : String
  pub text : String
  pub attachments : List Attachment

-- What is posted, where, and for how long an answer is awaited.
pub record Post : Type 0 where
  pub url : String
  pub message : SlackMessage
  pub time_out : ℕ

-- sendHttpRequest: the request it makes, and what becomes of the reply.
unfoldable pub http_request : SlackClient → SlackMessage → Post
http_request sc message = record {
  url = sc.web_hook_url;
  message = message;
  time_out = if eqb sc.time_out 0 then default_slack_timeout else sc.time_out;
}

unfoldable pub check_reply : Reply → Outcome (Unit {0})
check_reply (unbuilt e) = err e
check_reply (refused e) = err e
check_reply (unread e) = err e
check_reply (replied code body) =
    if body == "ok" then ok tt else err "Non-ok response returned from Slack"

-- SendSlackNotification
unfoldable pub slack_notification : SlackClient → SimpleSlackRequest → Post
unfolding http_request
slack_notification sc sr = http_request sc (record {
  username = sc.user_name;
  icon_emoji = sr.icon_emoji;
  channel = sc.channel;
  text = sr.text;
  attachments = [];
})

-- SendJobNotification
unfoldable pub job_notification : SlackClient → DateTime → SlackJobNotification → Post
unfolding http_request
job_notification sc now job = http_request sc (record {
  username = sc.user_name;
  icon_emoji = job.icon_emoji;
  channel = sc.channel;
  text = job.text;
  attachments = record { color = job.color; text = job.details; ts = now } ∷ [];
})

-- funcName, with which SendError, SendInfo and SendWarning post in "danger", "good" and "warning".
unfoldable pub colored_message : SlackClient → DateTime → String → String → List String → Post
unfolding job_notification
colored_message sc now color message options =
    job_notification sc now
      (record { color = color; icon_emoji = emoji options; details = message; text = "" })
  where
    emoji : List String → String
    emoji [] = ":hammer_and_wrench"
    emoji (e ∷ _) = e
