-- ===== src/Scheduler/Sameness.antt =====
-- Operations of src/scheduler/scheduler.cpp that leave the queue and the workers alone.
use puppet_master.Base.{ℕ, ◌≡◌, String, Bool, some, arith}
use puppet_master.Core.Result.{Result, value, failure}
use puppet_master.Runtime.Component.{ComponentSpec}
use puppet_master.Scheduler.Install.{install_task_triggers}
use puppet_master.Core.Trigger.{TriggerSpec}
use puppet_master.Scheduler.Startup.{add_data_trigger, add_trigger_reader}
use puppet_master.Scheduler.State.{Impl}
use puppet_master.Scheduler.Lifecycle.{
  register_component, begin_start, finish_start, begin_stop, continues, enter_worker, leave_worker,
}
use puppet_master.Scheduler.Growth.{Same}

pub register_component-Same :
    (found : Result ComponentSpec) (name : String) (s : Impl)
    → Same s (register_component found name s).1
unfolding register_component
register_component-Same (failure e) name s = ground arith
register_component-Same (value spec) name s = ground arith

pub add_data_trigger-Same :
    (name : String) (spec : TriggerSpec) (s : Impl) {index : ℕ} {t : Impl}
    → add_data_trigger name spec s ≡ some (index, t)
    → Same s t
unfolding add_data_trigger
add_data_trigger-Same name spec s h = ground arith

pub add_trigger_reader-Same :
    (name topic : String) (s : Impl) → Same s (add_trigger_reader name topic s).1
unfolding add_trigger_reader
add_trigger_reader-Same name topic s = ground arith

pub install_task_triggers-Same :
    (s : Impl) {t : Impl} → install_task_triggers s ≡ value t → Same s t
unfolding install_task_triggers
install_task_triggers-Same s h = ground arith

pub begin_start-Same :
    (caller : ℕ) (s : Impl) {t : Impl} → begin_start caller s ≡ continues t → Same s t
unfolding begin_start
begin_start-Same caller s h = grind (arith, install_task_triggers-Same)

pub begin_stop-Same :
    (from_start : Bool) (caller : ℕ) (s : Impl) {t : Impl}
    → begin_stop from_start caller s ≡ continues t
    → Same s t
unfolding begin_stop
begin_stop-Same from_start caller s h = ground arith

pub finish_start-Same : (s : Impl) → Same s (finish_start s)
unfolding finish_start
finish_start-Same s = ground arith

pub enter_worker-Same : (id : ℕ) (s : Impl) → Same s (enter_worker id s)
unfolding enter_worker
enter_worker-Same id s = ground arith

pub leave_worker-Same : (id : ℕ) (s : Impl) → Same s (leave_worker id s)
unfolding leave_worker
leave_worker-Same id s = ground arith
