-- ===== src/Lib.antt =====
-- Verification of the extended test framework (src/tools/extended-test-framework) and of the library
-- that the end-to-end tests share (src/common).
--
-- The framework runs system tests against a cluster. The test conductor runs one test in a pod; it
-- lists the pods that the test depends on with the workload monitor, and tells the test director how
-- its run goes. The workload monitor looks at the listed pods every ten seconds, and the log monitor
-- at log lines; both post events to the test director. The test director keeps the test plans, the
-- test runs and the events, copies results to Xray and messages to Slack.
--
-- The library of the end-to-end tests asks the product's control plane about volumes, pools and nodes,
-- calls the data plane of each node by gRPC, builds Kubernetes objects, and checks and sweeps the
-- cluster around each test.
--
-- Prelude, GoMap: what the modules share: decisions, lists, texts, results that are a value, an
--   error or a panic, and Go's maps as lists of entries, whose order stands for the order of `range`.
-- Cache: the three stores of the director (test_director/handlers/*_cache.go). The package go-cache
--   and the JSON encoding are parameters with the laws of their documentation; Cache.Reference has an
--   instance of them.
-- Models, World: the records and enumerations of test_director/models, and what the director meets
--   while it serves one request: the replies of Jira and Xray, the clock, the id generator.
-- Connectors: test_director/connectors. Jira is connectors/jira.go, Xray is connectors/xray/*.go with
--   its five attempts per query, Slack is connectors/slack.go.
-- Director: test_director/handlers. TestPlanCache and TestRunCache are the caches, TestPlans, TestRuns
--   and Events the handlers (putTestPlanImpl.Handle is put_test_plan, putTestRunImpl.Handle is
--   put_test_run, postEventImpl.Handle is add_event), Server the start of the server, the routing of
--   restapi/configure_test_framework.go, and histories of requests. A handler takes the state and
--   returns its answer with the new state; a panic ends the request and keeps the writes before it.
--   ActivePlan and SoundPlans have the invariant of the plans; PutPlan, DeletePlans, RunWrites,
--   RunMoves, RunEffects, RunEnds, NewRun, EventEffects and EventAnswers what each request does;
--   Histories and RunHistories what holds after any number of requests.
-- Kubernetes: common/k8sclient/lib_pod.go, where the answer of the API server to each list call is an
--   argument. Kubernetes.Waiting is about WaitForPodReady, Kubernetes.Lookup about which pod the
--   lookups by uid find.
-- Workload: workload_monitor. The file itself is list/workload_list.go, Handlers is
--   handlers/workload_handler.go, Monitor is one pass of StartMonitor in wm/workload_monitor.go.
--   Table and ListLaws have the operations of the list entry by entry, Entries the table as one list;
--   MonitorSteps takes a pass apart into steps, and PassSteps describes it check by check; Invariant and
--   Watch say what requests and passes keep, Restarts and Reports what is reported. System has the
--   requests and the passes in turns (cmd/workload_monitor/main.go).
-- Client: common/test_director_lib.go. Conductor: test_conductor/tc/workload_monitor_lib.go.
-- Reporting: what a report of the workload monitor does in the test director.
-- LogMonitor: log_monitor/cmd/main/log_checker.go.
-- Types: src/common/types.go; Types.Errors is ErrorAccumulator.
-- ControlPlane: src/common/controlplane. The file itself is controlplane.go with the names of states of
--   v1/controlplane_v1.go; Plugin has the commands of the kubectl plugin, whose answers are a parameter;
--   Nodes, Pools and Volumes are v1/msn_cp.go, msp_cp.go, msv_cp.go and replica_cp.go, and
--   Volumes.Queries the calls about volumes, where a call that runs two commands takes two answers.
--   Laws and MadeVolumes are about them.
-- Grpc: src/common/mayastorclient. The file itself is util.go with retryBackoff; Nodes has the calls that
--   list what one node and all nodes have, and Removal the calls that remove it. What a node
--   answers to each attempt is a parameter. Retry, Gather and Removal.Laws are about them.
-- Builders: the builders of src/common/k8stest, one file each for containers, volumes and storage classes;
--   PodTemplates has those of pod templates and of deployments.
-- Cluster: the rest of src/common/k8stest. Checks is test.go (resourceCheck is resource_check), Nodes is
--   util_node.go, Addresses is msv.go, Cleanup is util_cleanup.go, and Deployments is util.go. Pods and
--   Restarts are util_testpods.go (RestartMayastor is restart_mayastor), Checksums and Replicas are
--   util_replica.go, and Claims and NewClaims are util_pvc.go (RmPVC is rm_pvc, MkPVC is mk_pvc). A
--   call that is repeated takes the n-th of its answers at its n-th time. Each has its theorems in
--   its Laws; Checks also in Usage, Restarts in Waits and Online, Replicas in Children.
-- Scenarios: one small system with a plan, a run and a watched pod, and the theorems at concrete
--   inputs.
--
-- Bounds. The loops of sendXrayQuery and AddWorkload take their five rounds, and that of
-- WaitForPodReady its twelve, as the code counts them; retryBackoff and deletePoolFinalizer take
-- six, the waits of the sweep 120 and those of resourceCheck 60; RestartMayastor makes three tries,
-- and each wait for a claim 360 rounds. WaitTestDirector has no bound in the code: it runs on fuel
-- here, and one round more than the number of failures is enough. Restart counts are int32 and wrap
-- at 2 ^ 32; the sizes and the use of pools are uint64 and wrap at 2 ^ 64.
--
-- Not modelled: the reading of configuration and command line flags, logging, the generated servers,
-- clients and validators, sleeping, signals, and log streaming. Each server takes one request at a
-- time. Of src/common/k8stest the pods of the tests are not modelled, nor are the
-- installation, the configuration, the agents on the nodes and the test suites
-- (src/common/k8sinstall, src/common/e2e_config, src/tools, src/tests).
pub mod Prelude
pub mod GoMap
pub mod Cache
pub mod Models
pub mod World
pub mod Connectors
pub mod Director
pub mod Kubernetes
pub mod Workload
pub mod Client
pub mod Reporting
pub mod LogMonitor
pub mod Conductor
pub mod Types
pub mod ControlPlane
pub mod Grpc
pub mod Builders
pub mod Cluster
pub mod Scenarios
