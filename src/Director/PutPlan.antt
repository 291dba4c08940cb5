-- ===== src/Director/PutPlan.antt =====
-- The handler PUT /testPlans/{id} of test_plans.go: what it answers and what it leaves in the cache.
use mayastor_e2e.Prelude.{
  ◌≡◌, refl, inl, inr, ◌⊎◌, String, ◌==◌, eq_iff, [], none, some, Bool, true, false, if◌then◌else◌,
  arith, Outcome, ok, err, panic, text_self, Option-cases, map_option, ◌≢◌,
}
use mayastor_e2e.Cache.Typed
use mayastor_e2e.Models.{
  TestPlan, TestPlanSpec, TestPlanStatus, not_started, running, complete_pass, complete_fail,
}
use mayastor_e2e.World.{World, JiraTask}
use mayastor_e2e.Connectors.Jira.{get_jira_task_details}
use mayastor_e2e.Director.{Platform, State, plan_body, refuse}
use mayastor_e2e.Director.TestPlanCache
use mayastor_e2e.Director.TestPlans.{
  with_status, deactivated, advance, plan_from_jira, save_plan, put_test_plan,
}
use mayastor_e2e.Director.ActivePlan.{IsFiled, deactivate_all, get-deactivate_all}
use mayastor_e2e.Director.SoundPlans.{IsSound, put_same-IsSound, replace-IsSound}

-- The status changes that a client may ask for.
abbrev pub can_move : TestPlanStatus → TestPlanStatus → Bool
can_move not_started running = true
can_move running complete_pass = true
can_move running complete_fail = true
can_move _ _ = false

abbrev pub moved : TestPlanStatus → TestPlan → TestPlan
moved t a = if can_move a.status t then record (with_status t a) { is_active = true } else a

advance-moved : (a : TestPlan) (t : TestPlanStatus) → advance a t ≡ moved t a
unfolding advance
advance-moved a t = ground arith

-- An active plan with no tests.
abbrev pub jira_plan : String → TestPlanStatus → String → String → String → TestPlan
jira_plan id status assignee jira_id name = record {
  spec = record {
    assignee = assignee;
    jira_id = jira_id;
    name = name;
    status = status;
    tests = [];
  };
  is_active = true;
  key = id;
}

plan_from_jira-key :
    (w : World) (id : String) (t : TestPlanStatus) (a : TestPlan)
    → plan_from_jira w id t ≡ ok a
    → (a.key ≡ id) × (a.is_active ≡ true)
unfolding plan_from_jira
plan_from_jira-key w id t a e = ground arith

module _ (p : Platform) where
  open p use {cache, plan_codec}

  -- The cache after plan `a` is saved under `id`.
  abbrev pub saved : String → TestPlan → cache.Store → cache.Store
  saved id a s = TestPlanCache.put p (if a.is_active then deactivate_all p s else s) id a

  save_plan-saved :
      (id : String) (a : TestPlan) (st : State p)
      → save_plan p id a st ≡ (ok (plan_body a), record st { plans = saved id a st.plans })
  unfolding save_plan
  save_plan-saved id a st = ground (
    arith,
    Typed.store-put cache plan_codec (if a.is_active then deactivate_all p st.plans else st.plans)
        id a,
  )

  -- The cache that `saved` leaves, key by key.
  abbrev pub Replaced : String → TestPlan → cache.Store → cache.Store → Type 0
  Replaced id a s s' =
      (k : String)
      → TestPlanCache.get p s' k ≡ (
          if id == k
          then some a
          else if a.is_active
          then map_option deactivated (TestPlanCache.get p s k)
          else TestPlanCache.get p s k)

  saved-Replaced :
      (id : String) (a : TestPlan) (s : cache.Store) → IsFiled p s → Replaced id a s (saved id a s)
  saved-Replaced id a s f k = ground (
    arith,
    Typed.fetch-put cache plan_codec (if a.is_active then deactivate_all p s else s) id k a,
    get-deactivate_all p s k f,
  )

  put_existing-saved :
      (w : World) (id : String) (tps : TestPlanSpec) (st : State p) (a : TestPlan)
      → TestPlanCache.get p st.plans id ≡ some a
      → let b = moved tps.status a in
        put_test_plan p w id tps st ≡ (ok (plan_body b), record st { plans = saved id b st.plans })
  unfolding put_test_plan
  put_existing-saved w id tps st a e =
      ground (arith, e, advance-moved a tps.status, save_plan-saved id (moved tps.status a) st)

  put_new-saved :
      (w : World) (id : String) (tps : TestPlanSpec) (st : State p) (a : TestPlan)
      → TestPlanCache.get p st.plans id ≡ none
      → plan_from_jira w id tps.status ≡ ok a
      → put_test_plan p w id tps st ≡ (ok (plan_body a), record st { plans = saved id a st.plans })
  unfolding put_test_plan
  put_new-saved w id tps st a e j = ground (arith, save_plan-saved id a st)

  put_new_refused :
      (w : World) (id : String) (tps : TestPlanSpec) (st : State p) {x : String}
      → TestPlanCache.get p st.plans id ≡ none
      → plan_from_jira w id tps.status ≡ err x
      → put_test_plan p w id tps st ≡ (ok (refuse x), st)
  unfolding put_test_plan
  put_new_refused w id tps st e j = ground arith

  put_new_panic :
      (w : World) (id : String) (tps : TestPlanSpec) (st : State p)
      → TestPlanCache.get p st.plans id ≡ none
      → plan_from_jira w id tps.status ≡ panic
      → put_test_plan p w id tps st ≡ (panic, st)
  unfolding put_test_plan
  put_new_panic w id tps st e j = ground arith

  -- If the plans are sound, a PUT on a plan that is there moves its status only from NOT_STARTED
  -- to RUNNING and from RUNNING to either end, and answers with the plan. If the plan is then
  -- active, every other plan is made inactive; otherwise no other plan changes. Runs and events
  -- stay.
  pub put_test_plan_existing :
      (w : World) (id : String) (tps : TestPlanSpec) (st : State p) (a : TestPlan)
      → IsSound p st.plans
      → TestPlanCache.get p st.plans id ≡ some a
      → let b = moved tps.status a in
        let (r, st') = put_test_plan p w id tps st in
        (r ≡ ok (plan_body b))
        × Replaced id b st.plans st'.plans
        × (st'.runs ≡ st.runs)
        × (st'.events ≡ st.events)
  put_test_plan_existing w id tps st a v e =
      rw (put_existing-saved w id tps st a e)
        (refl, saved-Replaced id (moved tps.status a) st.plans v.filed, refl, refl)

  -- If the plans are sound, a PUT on a key that is not there asks Jira. If the issue there has the
  -- type Test Plan, an id and a summary, it adds the plan, active and with the requested status,
  -- and makes every other inactive. Runs and events stay.
  pub put_test_plan_new :
      (w : World) (id : String) (tps : TestPlanSpec) (st : State p) (jt : JiraTask)
      (jira_id name : String)
      → IsSound p st.plans
      → TestPlanCache.get p st.plans id ≡ none
      → get_jira_task_details w id ≡ ok jt
      → jt.issue_type ≡ some "Test Plan"
      → jt.id ≡ some jira_id
      → jt.name ≡ some name
      → let a = jira_plan id tps.status jt.assignee jira_id name in
        let (r, st') = put_test_plan p w id tps st in
        (r ≡ ok (plan_body a))
        × Replaced id a st.plans st'.plans
        × (st'.runs ≡ st.runs)
        × (st'.events ≡ st.events)
  unfolding plan_from_jira
  put_test_plan_new w id tps st jt jira_id name v e j ty i n =
      let a : TestPlan = jira_plan id tps.status jt.assignee jira_id name in
      rw (put_new-saved w id tps st a e (ground (arith, text_self "Test Plan")))
        (refl, saved-Replaced id a st.plans v.filed, refl, refl)

  -- A PUT for a key that Jira knows as another type of issue panics, and changes nothing.
  pub put_test_plan_wrong_type :
      (w : World) (id issue_type : String) (tps : TestPlanSpec) (st : State p) (jt : JiraTask)
      → TestPlanCache.get p st.plans id ≡ none
      → get_jira_task_details w id ≡ ok jt
      → jt.issue_type ≡ some issue_type
      → issue_type ≢ "Test Plan"
      → put_test_plan p w id tps st ≡ (panic, st)
  unfolding put_test_plan plan_from_jira
  put_test_plan_wrong_type w id issue_type tps st jt e j ty ne =
      ground (arith, eq_iff issue_type "Test Plan")

  saved-IsSound :
      (id : String) (a : TestPlan) (s : cache.Store)
      → a.key ≡ id
      → ((a.is_active ≡ true) ⊎ (TestPlanCache.get p s id ≡ some a))
      → IsSound p s
      → IsSound p (saved id a s)
  saved-IsSound id a s key why v = choose a.is_active refl
    where
      choose :
          (b : Bool)
          → a.is_active ≡ b
          → IsSound p (TestPlanCache.put p (if b then deactivate_all p s else s) id a)
      choose true t = replace-IsSound p s id a key v.filed
      choose false t = elim why [
        | inl t' ↦ cc (t, t')
        | inr e ↦ put_same-IsSound p s id a a e refl refl v
      ]

  -- Whatever Jira answers, a PUT of a test plan keeps the cache sound: plans stand under their own
  -- keys, and at most one is active.
  pub put_test_plan-IsSound :
      (w : World) (id : String) (tps : TestPlanSpec) (st : State p)
      → IsSound p st.plans
      → IsSound p (put_test_plan p w id tps st).1.plans
  put_test_plan-IsSound w id tps st v = elim (Option-cases (TestPlanCache.get p st.plans id)) [
    | inr (a, e) ↦ rw (put_existing-saved w id tps st a e) (
        saved-IsSound id (moved tps.status a) st.plans (ground (arith, v.filed.keyed id a e))
          (ground arith) v)
    | inl e ↦ new (plan_from_jira w id tps.status) refl e
  ]
    where
      new :
          (o : Outcome TestPlan)
          → plan_from_jira w id tps.status ≡ o
          → TestPlanCache.get p st.plans id ≡ none
          → IsSound p (put_test_plan p w id tps st).1.plans
      new (ok a) j e =
          let (key, active) = plan_from_jira-key w id tps.status a j in
          rw (put_new-saved w id tps st a e j) (saved-IsSound id a st.plans key (inl active) v)
      new (err x) j e = rw (put_new_refused w id tps st e j) v
      new panic j e = rw (put_new_panic w id tps st e j) v
