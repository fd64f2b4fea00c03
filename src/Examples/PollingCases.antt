-- ===== src/Examples/PollingCases.antt =====
-- `poll_task` of backend/app/connectors/_tasks.py on a task that stops, and that says two lines.
use joulenap.Prelude.{◌≢◌, ◌≤◌, subst, false, true, some, [], ◌∷◌, codes, leb, if◌then◌else◌, arith}
use joulenap.Polling.{Remote, task_running, task_stopped, still_polling, highest, poll_task}
use joulenap.Polling.Drain.{LogEnds}
use joulenap.Polling.Loop.{IsPolled, poll_task-IsPolled}
use joulenap.Polling.Ends.{StopsAt, poll_task-returns}
use joulenap.Service.Resolve.{some_injective}

abbrev task : Remote
task = record {
  status = λ n. some (if leb 9 n then task_stopped (some (codes "OK")) else task_running);
  log = λ seen n. some ((1, codes "starting") ∷ (2, codes "done") ∷ []);
  clock = λ n. n;
  cancelled = λ n. false;
  tails = true;
  timeout = 60;
}

poll_task-IsPolled_example : IsPolled task 3 (poll_task task 3 9).0 (poll_task task 3 9).1
poll_task-IsPolled_example = poll_task-IsPolled task 3 9

task-LogEnds : LogEnds task 2
task-LogEnds n calls lines e = subst (λ ls. highest ls ≤ 2) (some_injective e) (omega arith)

task-StopsAt : StopsAt task 9
task-StopsAt = record {
  stopped = λ n h. (some (codes "OK"), ground arith);
  answers = λ seen n h e. cc;
}

poll_task-returns_example : (poll_task task 3 9).0 ≢ still_polling
poll_task-returns_example =
    poll_task-returns task 2 9 3 9 task-LogEnds task-StopsAt (omega arith) (omega arith)
      (omega arith)
