-- ===== src/Workload/Restarts.antt =====
-- What the check of restarts reports and keeps (StartMonitor of
-- src/tools/extended-test-framework/workload_monitor/wm/workload_monitor.go).
use mayastor_e2e.Prelude.{
  ℕ, suc, [], ◌∷◌, ◌++◌, Option, none, some, Outcome, ok, err, panic, Bool, true, false, arith, ◌≡◌,
  ◌≢◌, refl, sym, subst, ap, ◌∙◌, length, if◌then◌else◌, eq_iff, eqb,
}
use mayastor_e2e.Kubernetes.{Pod, get_pod_by_uuid, restart_count}
use mayastor_e2e.Workload.{WorkloadListItem, get_item, set_workload_list_item_restarts}
use mayastor_e2e.Workload.ListLaws.{get_item-set_restarts}
use mayastor_e2e.Workload.Monitor.{
  Surroundings, Report, Monitor, send_event_fail, restart_text, compare_restarts, check_restarted,
  list_pods,
}

compare_restarts_lem :
    (s : Surroundings) (pod : Pod) (wli : WorkloadListItem) (m : Monitor)
    → get_item wli.rid wli.wl.id m.table ≡ some wli
    → let n = restart_count pod.restart_counts 0 in
      let (wli', m') = compare_restarts s pod wli m in
      let report : Report = record {
        source = wli.rid;
        message = restart_text s wli.wl.name n;
        taken = s.takes (length m.reports);
      } in
      (get_item wli.rid wli.wl.id m'.table ≡ some (record wli { restarts = n }))
      × (m'.reports ≡ (if eqb n wli.restarts then m.reports else m.reports ++ (report ∷ [])))
      × (wli' ≡ record wli { restarts = n })
unfolding compare_restarts send_event_fail
compare_restarts_lem s pod wli m h = go (eqb n wli.restarts) refl
  where
    n : ℕ
    n = restart_count pod.restart_counts 0

    report : Report
    report = record {
      source = wli.rid;
      message = restart_text s wli.wl.name n;
      taken = s.takes (length m.reports);
    }

    the_item : ℕ → WorkloadListItem
    the_item k = record wli { restarts = k }

    go :
        (b : Bool)
        → eqb n wli.restarts ≡ b
        → (get_item wli.rid wli.wl.id (compare_restarts s pod wli m).1.table
            ≡ some (record wli { restarts = n }))
          × ((compare_restarts s pod wli m).1.reports
              ≡ (if b then m.reports else m.reports ++ (report ∷ [])))
          × ((compare_restarts s pod wli m).0 ≡ record wli { restarts = n })
    go true t =
        let same : wli ≡ record wli { restarts = n } =
          ap (λ (k : ℕ). the_item k) (ground (arith, t)) in
        rw (t, compare_restarts) (h ∙ ap some same, refl, same)
    go false t =
        rw (t, compare_restarts)
          (
            ground (
              arith,
              h,
              eq_iff wli.rid wli.rid,
              eq_iff wli.wl.id wli.wl.id,
              (get_item-set_restarts wli.rid wli.wl.id wli.rid wli.wl.id n m.table).0,
            ),
            refl,
            refl,
          )

-- An entry with the listed count is left, and nothing is reported.
compare_restarts_same :
    (s : Surroundings) (pod : Pod) (wli : WorkloadListItem) (m : Monitor)
    → wli.restarts ≡ restart_count pod.restart_counts 0
    → compare_restarts s pod wli m ≡ (wli, m)
unfolding compare_restarts
compare_restarts_same s pod wli m e = ground (arith, e)

-- For an entry of the list whose pod the API server lists: if the restarts of the pod's containers
-- differ from the entry's count, that is reported to the entry's registrant, and otherwise nothing
-- is. Either way the entry then has the listed count, in the list and in the loop's copy, whether
-- or not the report was taken.
pub check_restarted_lem :
    (s : Surroundings) (wli : WorkloadListItem) (pod : Pod) (m : Monitor)
    → get_pod_by_uuid (s.answers m.calls) wli.wl.id ≡ ok (some pod)
    → get_item wli.rid wli.wl.id m.table ≡ some wli
    → let n = restart_count pod.restart_counts 0 in
      let (wli', m') = check_restarted s wli m in
      let report : Report = record {
        source = wli.rid;
        message = restart_text s wli.wl.name n;
        taken = s.takes (length m.reports);
      } in
      (get_item wli.rid wli.wl.id m'.table ≡ some (record wli { restarts = n }))
      × (m'.reports ≡ (if eqb n wli.restarts then m.reports else m.reports ++ (report ∷ [])))
      × (wli' ≡ record wli { restarts = n })
unfolding check_restarted compare_restarts send_event_fail list_pods
check_restarted_lem s wli pod m e h =
    ground (arith, e, compare_restarts_lem s pod wli (record m { calls = suc m.calls }) h)

compare_restarts_changed :
    (s : Surroundings) (pod : Pod) (wli : WorkloadListItem) (m : Monitor)
    → let n = restart_count pod.restart_counts 0 in
      eqb n wli.restarts ≡ false
      → let (_, sent) = send_event_fail s wli.rid (restart_text s wli.wl.name n) m in
        compare_restarts s pod wli m ≡ (
          record wli { restarts = n },
          record sent {
            table = (set_workload_list_item_restarts wli.rid wli.wl.id n sent.table).0;
          },
        )
unfolding compare_restarts
compare_restarts_changed s pod wli m e = rw (e, compare_restarts) refl

check_restarted-silent :
    (s : Surroundings) (wli : WorkloadListItem) (m : Monitor)
    → ((pod : Pod) → get_pod_by_uuid (s.answers m.calls) wli.wl.id ≢ ok (some pod))
    → check_restarted s wli m ≡ (wli, record m { calls = suc m.calls })
unfolding check_restarted list_pods
check_restarted-silent s wli m n = go (get_pod_by_uuid (s.answers m.calls) wli.wl.id) refl
  where
    go :
        (o : Outcome (Option Pod))
        → get_pod_by_uuid (s.answers m.calls) wli.wl.id ≡ o
        → check_restarted s wli m ≡ (wli, record m { calls = suc m.calls })
    go (ok none) e = rw (e, check_restarted) refl
    go (ok (some pod)) e = elim (n pod e) [ ]
    go (err t) e = rw (e, check_restarted) refl
    go panic e = rw (e, check_restarted) refl

check_restarted-listed :
    (s : Surroundings) (wli : WorkloadListItem) (pod : Pod) (m : Monitor)
    → get_pod_by_uuid (s.answers m.calls) wli.wl.id ≡ ok (some pod)
    → check_restarted s wli m ≡ compare_restarts s pod wli (record m { calls = suc m.calls })
unfolding check_restarted list_pods
check_restarted-listed s wli pod m e = rw (e, check_restarted) refl

check_restarted_quiet :
    (s : Surroundings) (wli : WorkloadListItem) (pod : Pod) (m : Monitor)
    → get_pod_by_uuid (s.answers m.calls) wli.wl.id ≡ ok (some pod)
    → wli.restarts ≡ restart_count pod.restart_counts 0
    → (check_restarted s wli m).1.reports ≡ m.reports
check_restarted_quiet s wli pod m e q =
    ap (λ (t : WorkloadListItem × Monitor). t.1.reports)
      (check_restarted-listed s wli pod m e ∙ compare_restarts_same s pod wli _ q)

-- A restart is reported once: where the next list call has the same answer, checking the same entry
-- again reports nothing.
pub check_restarted_once :
    (s : Surroundings) (wli : WorkloadListItem) (m : Monitor)
    → s.answers (suc m.calls) ≡ s.answers m.calls
    → let (wli', m') = check_restarted s wli m in (check_restarted s wli' m').1.reports ≡ m'.reports
unfolding check_restarted compare_restarts send_event_fail list_pods
check_restarted_once s wli m h = go (get_pod_by_uuid (s.answers m.calls) wli.wl.id) refl
  where
    m1 : Monitor
    m1 = record m { calls = suc m.calls }

    Quiet : WorkloadListItem × Monitor → Type 0
    Quiet t = (check_restarted s t.0 t.1).1.reports ≡ t.1.reports

    go :
        (o : Outcome (Option Pod))
        → get_pod_by_uuid (s.answers m.calls) wli.wl.id ≡ o
        → Quiet (check_restarted s wli m)
    go (ok none) e = subst Quiet (sym (check_restarted-silent s wli m (λ pod d. cc (d, e)))) (
        ap (λ (t : WorkloadListItem × Monitor). t.1.reports)
          (check_restarted-silent s wli m1 (λ pod d. cc (d, e, h))))
    go (ok (some pod)) e =
        subst Quiet (sym (check_restarted-listed s wli pod m e))
          (compared (eqb (restart_count pod.restart_counts 0) wli.restarts) refl)
      where
        again : get_pod_by_uuid (s.answers (suc m.calls)) wli.wl.id ≡ ok (some pod)
        again = rw h e

        compared :
            (b : Bool)
            → eqb (restart_count pod.restart_counts 0) wli.restarts ≡ b
            → Quiet (compare_restarts s pod wli m1)
        compared true t =
            let q : wli.restarts ≡ restart_count pod.restart_counts 0 = ground (arith, t) in
            subst Quiet (sym (compare_restarts_same s pod wli m1 q))
              (check_restarted_quiet s wli pod m1 again q)
        compared false t =
            subst Quiet (sym (compare_restarts_changed s pod wli m1 t))
              (check_restarted_quiet s _ pod _ again refl)
    go (err t) e = subst Quiet (sym (check_restarted-silent s wli m (λ pod d. cc (d, e)))) (
        ap (λ (t : WorkloadListItem × Monitor). t.1.reports)
          (check_restarted-silent s wli m1 (λ pod d. cc (d, e, h))))
    go panic e = subst Quiet (sym (check_restarted-silent s wli m (λ pod d. cc (d, e)))) (
        ap (λ (t : WorkloadListItem × Monitor). t.1.reports)
          (check_restarted-silent s wli m1 (λ pod d. cc (d, e, h))))
