-- ===== src/Connectors/Jira.antt =====
-- src/tools/extended-test-framework/test_director/connectors/jira.go.
use mayastor_e2e.Prelude.{String, [], ◌∷◌, Outcome, err, if◌then◌else◌, eqb, concat}
use mayastor_e2e.World.{World, JiraTask, Reply, unbuilt, refused, unread, replied}

abbrev pub issue_url : String
issue_url = "https://mayadata.atlassian.net/rest/api/3/issue/"

decode_reply : World → Reply → Outcome JiraTask
decode_reply w (unbuilt e) = err e
decode_reply w (refused e) = err e
decode_reply w (unread e) = err e
decode_reply w (replied code body) = if eqb code 200 then w.decode_task body else err body

-- The decoder is json.Unmarshal: it answers with a task or an error.
unfoldable pub get_jira_task_details : World → String → Outcome JiraTask
unfolding decode_reply concat
get_jira_task_details w key = decode_reply w (w.jira (concat (issue_url ∷ key ∷ [])))
