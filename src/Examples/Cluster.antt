-- ===== src/Examples/Cluster.antt =====
-- API servers. The first one keeps the tasks that it is given. It holds one workflow and one task beside
-- them, has no Jobs, and its clock stands still.
use kube_task.Base.{String, List, [], ◌∷◌, ◌==◌, if◌then◌else◌, pos, elem}
use kube_task.Api.{Task, Workflow}
use kube_task.Kube.{Client, Call, Job, done, failed, not_found, already_exists, pure, throw}

abbrev pub find_task : String → List Task → Call (List Task) Task
find_task name [] = throw not_found
find_task name (task ∷ tasks) =
    let rest = find_task name tasks in if task.meta.name == name then pure task else rest

abbrev insert_task : Task → Call (List Task) Task
insert_task task tasks = elim (find_task task.meta.name tasks tasks).0 [
  | done t ↦ (failed already_exists, tasks)
  | failed e ↦ (done task, task ∷ tasks)
]

abbrev pub cluster : Workflow → Task → Client (List Task)
cluster wf held = record {
  now = pure (pos 0);
  describe = λ e. "error";
  get_workflow = λ name. if wf.meta.name == name then pure wf else throw not_found;
  update_workflow = pure;
  update_workflow_status = pure;
  get_task = λ name tasks. find_task name (held ∷ tasks) tasks;
  list_tasks = λ labels tasks. (done tasks, tasks);
  create_task = insert_task;
  update_task = pure;
  update_task_status = pure;
  delete_task = λ name uid. throw not_found;
  list_jobs = λ namespace labels. pure [];
  create_job = pure;
  delete_job = λ job. pure tt;
  is_controlled_by = λ object owner. elem owner.uid object.finalizers;
  set_controller_reference = λ owner object. done object;
  contains_finalizer = λ object name. elem name object.finalizers;
  add_finalizer = λ object name. record object { finalizers = name ∷ object.finalizers };
  remove_finalizer = λ object name. record object { finalizers = [] };
}

abbrev remove_job : String → List Job → List Job
remove_job name [] = []
remove_job name (job ∷ jobs) =
    let rest = remove_job name jobs in if job.meta.name == name then rest else job ∷ rest

-- It holds one task and one workflow, has nothing else, and changes nothing.
abbrev pub idle_server : {S : Type 0} → Workflow → Task → Client S
idle_server wf held = record {
  now = pure (pos 0);
  describe = λ e. "error";
  get_workflow = λ name. pure wf;
  update_workflow = pure;
  update_workflow_status = pure;
  get_task = λ name. pure held;
  list_tasks = λ labels. pure [];
  create_task = pure;
  update_task = pure;
  update_task_status = pure;
  delete_task = λ name uid. throw not_found;
  list_jobs = λ namespace labels. pure [];
  create_job = pure;
  delete_job = λ job. throw not_found;
  is_controlled_by = λ object owner. elem owner.uid object.finalizers;
  set_controller_reference = λ owner object. done object;
  contains_finalizer = λ object name. elem name object.finalizers;
  add_finalizer = λ object name. record object { finalizers = name ∷ object.finalizers };
  remove_finalizer = λ object name. record object { finalizers = [] };
}

-- It keeps the Jobs as well.
abbrev pub job_server : Workflow → Task → Client (List Job)
job_server wf held = record (idle_server wf held) {
  list_jobs = λ namespace labels jobs. (done jobs, jobs);
  create_job = λ job jobs. (done job, job ∷ jobs);
  delete_job = λ job jobs. (done tt, remove_job job.meta.name jobs);
}
