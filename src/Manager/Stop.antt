-- ===== src/Manager/Stop.antt =====
-- `stop_stream` of backend/app/streaming/ffmpeg_manager.py, in its parts: what it does to the process under
-- the lock, and what it does once the task that monitors the process has ended.
use youtube_translation.Base.{ℕ, Bool, true, false, Option, none, some, if◌then◌else◌}
use youtube_translation.Manager.{Info, Managed, Host, without, forget}
use youtube_translation.Manager.Failure.{Policy, Wreck, process_exited}

abbrev mark_manual : Option Info → Option Info
mark_manual none = none
mark_manual (some info) = some (record info { manual_stop = true })

unfoldable pub stop_process : Option ℕ → Bool → Managed → Managed × Bool
stop_process none exits m = (record m { info = none }, false)
stop_process (some pid) exits m = (
  record m {
    active = none;
    info = mark_manual m.info;
    children = if exits then without pid m.children else m.children;
  },
  true,
)

-- The part of `stop_stream` under the lock: whether there was a process, which then has ended or has
-- outlived SIGKILL.
unfoldable pub begin_stop : Bool → Managed → Managed × Bool
unfolding stop_process
begin_stop exits m = stop_process m.active exits m

-- The part after the monitor
unfoldable pub end_stop : Managed → Managed
end_stop m = forget m

-- `stop_stream` where the monitor of the process does nothing but see it end. The monitor waits for the
-- process without a limit, so that a process that does not end keeps the call.
unfoldable pub stop_stream :
    Policy → Bool → Host → Host → Wreck → Bool → Bool → Managed → Option (Managed × Bool)
unfolding begin_stop
stop_stream policy reads before after wreck returned_zero exits m =
    let (signalled, stopped) = begin_stop exits m in
    if stopped
    then if exits
      then some
          (end_stop (process_exited policy reads before after wreck returned_zero signalled), true)
      else none
    else some (end_stop signalled, false)
