-- ===== src/Daemon/WindowsService.antt =====
-- daemon/nyansd_daemon.cpp where _WIN32 is defined: the daemon as a service of Windows, which
-- reports what it does to the service control manager. `unsigned long` has 32 bits there.
pub mod Reports
pub mod Run
use nyan_sd.Base.{
  ℕ, ◌+◌, ◌-◌, ◌%◌, ◌^◌, Bool, true, false, not, ◌||◌, if◌then◌else◌, ltb, take, Option, none, some,
  List, [], ◌∷◌, ◌++◌, text, Bytes,
}
use nyan_sd.ByteBauble.{BbEndianness}
use nyan_sd.Nyansd.{Service}
use nyan_sd.Nyansd.Ipv4.{decimal, long_32, ipv4_string_to_uint_in}
use nyan_sd.Daemon.{DirectoryEntry, Load, loaded, failed, thrown, load_entries}

-- The constants SERVICE_STOPPED and so on; `unset` is the 0 of a variable with static storage.
pub data ServiceState : Type 0 where
  unset stopped start_pending stop_pending running : ServiceState

-- SERVICE_STATUS. `own_process`: the type is SERVICE_WIN32_OWN_PROCESS, else 0. `accept_stop`: the
-- controls accepted are SERVICE_ACCEPT_STOP, else 0. NO_ERROR is 0.
pub record ServiceStatus : Type 0 where
  pub own_process : Bool
  pub current_state : ServiceState
  pub accept_stop : Bool
  pub exit_code : ℕ
  pub specific_exit_code : ℕ
  pub check_point : ℕ
  pub wait_hint : ℕ

-- `gSvcStatus`, the static `dwCheckPoint` of `ReportSvcStatus`, and what `SetServiceStatus` has
-- been given so far, in order.
pub record Reporter : Type 0 where
  pub status : ServiceStatus
  pub next_check_point : ℕ
  pub reported : List ServiceStatus

abbrev pub unreported : Reporter
unreported = record {
  status = record {
    own_process = false;
    current_state = unset;
    accept_stop = false;
    exit_code = 0;
    specific_exit_code = 0;
    check_point = 0;
    wait_hint = 0;
  };
  next_check_point = 1;
  reported = [];
}

-- `dwCurrentState == SERVICE_START_PENDING`.
abbrev pub is_start_pending : ServiceState → Bool
is_start_pending unset = false
is_start_pending stopped = false
is_start_pending start_pending = true
is_start_pending stop_pending = false
is_start_pending running = false

-- `(dwCurrentState == SERVICE_RUNNING) || (dwCurrentState == SERVICE_STOPPED)`.
abbrev pub is_settled : ServiceState → Bool
is_settled unset = false
is_settled stopped = true
is_settled start_pending = false
is_settled stop_pending = false
is_settled running = true

-- The `++` of a DWORD.
unfoldable pub report_svc_status : ServiceState → ℕ → ℕ → Reporter → Reporter
report_svc_status state exit_code wait_hint r =
    let settled = is_settled state in
    let status : ServiceStatus = record r.status {
      current_state = state;
      exit_code = exit_code;
      wait_hint = wait_hint;
      accept_stop = not (is_start_pending state);
      check_point = if settled then 0 else r.next_check_point;
    } in
    record {
      status = status;
      next_check_point = if settled then r.next_check_point else (r.next_check_point + 1) % 2 ^ 32;
      reported = r.reported ++ status ∷ [];
    }

-- SERVICE_CONTROL_STOP, SERVICE_CONTROL_INTERROGATE, or any other code.
pub data Control : Type 0 where
  control_stop control_interrogate control_other : Control

-- Also whether it calls `gCv.notify_all()`.
unfoldable pub svc_ctrl_handler : Control → Reporter → Reporter × Bool
svc_ctrl_handler control_stop r =
    let r' = report_svc_status stop_pending 0 0 r in
    (report_svc_status r'.status.current_state 0 0 r', true)
svc_ctrl_handler control_interrogate r = (r, false)
svc_ctrl_handler control_other r = (r, false)

-- Control codes one after another; whether one of them notified.
unfoldable pub handle_controls : List Control → Reporter → Reporter × Bool
handle_controls [] r = (r, false)
handle_controls (c ∷ cs) r =
    let (r', notified) = svc_ctrl_handler c r in
    let (r'', later) = handle_controls cs r' in (r'', notified || later)

-- What the service finds: whether the event can be created, the variable `ProgramData`, and what
-- a path leads to, where `none` is one that does not exist; whether `RegisterEventSource` gives a
-- handle, and what `GetLastError` returns after a failure.
pub record Environment : Type 0 where
  pub creates_event : Bool
  pub program_data : Option Bytes
  pub folder_at : Bytes → Option (List DirectoryEntry)
  pub event_source : Bool
  pub last_error : ℕ

-- `svcInit` up to the start of the listener with these services, or to its return after a
-- failure, which it has reported; or an exception ends the process.
pub data Init : Type 0 where
  serves : List Service → Reporter → Init
  gives_up : Reporter → Init
  uncaught : Reporter → Init

give_up : Reporter → Init
give_up r = gives_up (report_svc_status stopped 0 0 r)

init_of : Load → Reporter → Init
unfolding give_up
init_of (loaded services) r = serves services r
init_of (failed services) r = give_up r
init_of (thrown services) r = uncaught r

init_folder : BbEndianness → Bytes → Option (List DirectoryEntry) → Reporter → Init
unfolding init_of give_up
init_folder machine host_name none r = give_up r
init_folder machine host_name (some entries) r =
    init_of (load_entries (ipv4_string_to_uint_in long_32 machine) host_name entries []) r

init_path : BbEndianness → Bytes → Environment → Option Bytes → Reporter → Init
unfolding init_folder give_up
init_path machine host_name env none r = give_up r
init_path machine host_name env (some pdpath) r =
    init_folder machine host_name (env.folder_at (pdpath ++ text "/NyanSD/services")) r

unfoldable pub svc_init : BbEndianness → Bytes → Environment → Reporter → Init
unfolding init_path give_up
svc_init machine host_name env r =
    if env.creates_event then init_path machine host_name env env.program_data r else give_up r

-- A DWORD printed by %d.
signed_decimal : ℕ → Bytes
signed_decimal n = if ltb n (2 ^ 31) then decimal n else b'-' ∷ decimal (2 ^ 32 - n)

-- The strings of the event that is logged, if one is; `StringCchPrintf` cuts the second so that it
-- and its terminator fit the 80 characters of the buffer.
unfoldable pub svc_report_event : Environment → Bytes → Option (List Bytes)
unfolding signed_decimal
svc_report_event env function =
    if env.event_source
    then some (
        text "NyanSD"
        ∷ take 79 (function ++ (text " failed with " ++ signed_decimal env.last_error))
        ∷ [])
    else none

-- The process: what `main` logs and returns, if `StartServiceCtrlDispatcher` succeeds and if not.
unfoldable pub dispatcher_main : Environment → Bool → Option (List Bytes) × ℕ
dispatcher_main env true = (none, 0)
dispatcher_main env false = (svc_report_event env (text "StartServiceCtrlDispatcher"), 0)

-- How far `SvcMain` comes: it logs an event and returns at once, as no handler could be
-- registered; it returns after a failure; it returns from serving; an exception ends the process;
-- it waits on the condition variable; or in `stopListener`, for a thread that does not end.
pub data ServiceRun : Type 0 where
  unregistered : Option (List Bytes) → ServiceRun
  aborts : Reporter → ServiceRun
  returns : List Service → Reporter → ServiceRun
  ended_by_exception : Reporter → ServiceRun
  waits : List Service → Reporter → ServiceRun
  joining : List Service → Reporter → ServiceRun

-- The control codes that are handled before the service has loaded its services; those between its
-- report that it runs and its wait on the condition variable; those from the wait on to its last
-- report, of which the first stop ends the wait; whether the wait ends without a stop; and whether
-- the listener's thread ends when `stopListener` waits for it.
pub record Arrivals : Type 0 where
  pub before : List Control
  pub between : List Control
  pub during : List Control
  pub spurious : Bool
  pub listener_ends : Bool

-- `stopListener`, and the last report.
after_wait : List Service → Bool → Bool → Reporter → ServiceRun
after_wait services true true r = returns services (report_svc_status stopped 0 0 r)
after_wait services true false r = joining services r
after_wait services false listener_ends r = waits services r

after_init : Arrivals → Init → ServiceRun
unfolding after_wait
after_init arrivals (gives_up r) = aborts (report_svc_status stopped 0 0 r)
after_init arrivals (uncaught r) = ended_by_exception r
after_init arrivals (serves services r) =
    let r' = (handle_controls arrivals.between (report_svc_status running 0 0 r)).0 in
    let (r'', notified) = handle_controls arrivals.during r' in
    after_wait services (notified || arrivals.spurious) arrivals.listener_ends r''

unfoldable pub svc_main : BbEndianness → Bytes → Environment → Bool → Arrivals → ServiceRun
unfolding after_init
svc_main machine host_name env false arrivals =
    unregistered (svc_report_event env (text "RegisterServiceCtrlHandler"))
svc_main machine host_name env true arrivals =
    let r : Reporter = record unreported {
      status = record unreported.status { own_process = true; specific_exit_code = 0 };
    } in
    let r' = report_svc_status start_pending 0 3000 r in
    after_init arrivals (svc_init machine host_name env (handle_controls arrivals.before r').0)
