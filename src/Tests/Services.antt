-- ===== src/Tests/Services.antt =====
-- The daemon as a service of Windows: a folder that is served, and a stop.
use nyan_sd.Base.{◌≡◌, true, false, none, some, [], ◌∷◌, if◌then◌else◌, text, equal}
use nyan_sd.ByteBauble.{bb_le}
use nyan_sd.Daemon.{daemon_run, load_entries}
use nyan_sd.Daemon.WindowsService.{
  stopped, start_pending, stop_pending, running, Reporter, control_stop, control_interrogate,
  Environment, Arrivals, returns, svc_main,
}
use nyan_sd.Daemon.WindowsService.Reports.{Afterwards, IsOrderly, svc_main-IsOrderly}
use nyan_sd.Daemon.WindowsService.Run.{states, svc_main-Follows}

abbrev windows : Environment
windows = record {
  creates_event = true;
  program_data = some (text "C:/ProgramData");
  folder_at = λ path. if equal path (text "C:/ProgramData/NyanSD/services") then some [] else none;
  event_source = true;
  last_error = 0;
}

abbrev stop_in_time : Arrivals
stop_in_time = record {
  before = control_interrogate ∷ [];
  between = [];
  during = control_stop ∷ [];
  spurious = false;
  listener_ends = true;
}

reports_example : Afterwards IsOrderly (svc_main bb_le (text "alpha") windows true stop_in_time)
reports_example = svc_main-IsOrderly bb_le (text "alpha") windows true stop_in_time

-- Nothing to serve, and a stop.
service_example :
    (r : Reporter) × (svc_main bb_le (text "alpha") windows true stop_in_time ≡ returns [] r)
    × (states r ≡ start_pending ∷ running ∷ stop_pending ∷ stop_pending ∷ stopped ∷ [])
unfolding equal daemon_run load_entries
service_example = svc_main-Follows bb_le (text "alpha") windows stop_in_time
