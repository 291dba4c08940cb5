-- ===== src/World.antt =====
-- What the test director meets outside its own code while it serves one request: the replies of the
-- HTTP services it calls, the clock, the id generator, and the decoders of other packages.
use mayastor_e2e.Prelude.{ℕ, String, List, Option, Outcome}
use mayastor_e2e.Models.{DateTime}

-- One HTTP exchange: http.NewRequest fails, client.Do fails, the body cannot be read, or a status
-- code with a body.
pub data Reply : Type 0 where
  unbuilt : String → Reply
  refused : String → Reply
  unread : String → Reply
  replied : ℕ → String → Reply

-- A Jira issue as decoded; an absent member is `none`.
pub record JiraTask : Type 0 where
  pub key : String
  pub id : Option String
  pub assignee : String
  pub name : Option String
  pub issue_type : Option String

-- One call of Xray's sendRequest: two authorisations and the query itself.
pub record Exchange : Type 0 where
  pub auth : Reply
  pub auth_again : Reply
  pub answer : Reply

pub record World : Type 0 where
  pub jira : String → Reply  -- by URL
  pub decode_task : String → Outcome JiraTask  -- json.Unmarshal of a Jira body
  pub xray : String → ℕ → Exchange  -- by query text and attempt
  pub json_text : String → String → String  -- gjson.Get(json, path).Str
  pub json_list : String → String → List String  -- the strings of gjson.Get(json, path).Array()
  pub print_time : DateTime → String  -- time.RFC3339
  pub now : DateTime
  pub uuid : String
