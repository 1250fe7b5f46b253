-- ===== src/Daemon/WindowsService/Run.antt =====
-- A run of the service beside a run of the daemon with the same folder.
use nyan_sd.Base.{
  ℕ, ◌≡◌, refl, sym, ap, ◌∙◌, Bool, true, false, ◌||◌, inl, inr, if◌then◌else◌, Bool-cases, Option,
  none, some, List, [], ◌∷◌, ◌++◌, append-nil, append_assoc, map, text, Bytes,
}
use nyan_sd.ByteBauble.{BbEndianness}
use nyan_sd.Nyansd.{Service}
use nyan_sd.Nyansd.Ipv4.{long_32, ipv4_string_to_uint_in}
use nyan_sd.Daemon.{
  DirectoryEntry, Load, loaded, failed, thrown, load_entries, Start, serving, exit_1, daemon_run,
  start_of,
}
use nyan_sd.Daemon as Daemon
use nyan_sd.Daemon.WindowsService.{
  ServiceState, stopped, start_pending, stop_pending, running, Reporter, report_svc_status, Control,
  control_stop, control_interrogate, control_other, svc_ctrl_handler, handle_controls, Environment,
  Init, serves, gives_up, uncaught, svc_init, ServiceRun, aborts, returns, ended_by_exception,
  waits, joining, Arrivals, svc_main, after_wait, after_init, init_of, init_folder, init_path,
  give_up,
}

-- The states reported so far, in order.
abbrev pub states : Reporter → List ServiceState
states r = map (λ s. s.current_state) r.reported

-- A stop is reported twice.
abbrev pub stop_reports : List Control → List ServiceState
stop_reports [] = []
stop_reports (control_stop ∷ cs) = stop_pending ∷ stop_pending ∷ stop_reports cs
stop_reports (control_interrogate ∷ cs) = stop_reports cs
stop_reports (control_other ∷ cs) = stop_reports cs

abbrev pub any_stop : List Control → Bool
any_stop [] = false
any_stop (control_stop ∷ cs) = true
any_stop (control_interrogate ∷ cs) = any_stop cs
any_stop (control_other ∷ cs) = any_stop cs

abbrev pub services_folder : Environment → Option Bytes → Option (List DirectoryEntry)
services_folder env none = none
services_folder env (some pdpath) = env.folder_at (pdpath ++ text "/NyanSD/services")

-- The folder of services, if the service comes to look for it.
abbrev pub found_folder : Environment → Option (List DirectoryEntry)
found_folder env = if env.creates_event then services_folder env env.program_data else none

-- The service's run for what becomes of the daemon's.
-- How a run ends that has come to serve, and what it reports then.
abbrev pub end_of : List Service → Arrivals → Reporter → ServiceRun
end_of svs arrivals r =
    if any_stop arrivals.during || arrivals.spurious
    then (if arrivals.listener_ends then returns svs r else joining svs r)
    else waits svs r

abbrev pub last_reports : Arrivals → List ServiceState
last_reports arrivals =
    if any_stop arrivals.during || arrivals.spurious
    then (if arrivals.listener_ends then stopped ∷ [] else [])
    else []

abbrev pub Follows : Start → Arrivals → ServiceRun → Type 0
Follows (serving svs) arrivals out =
    (r : Reporter) × (out ≡ end_of svs arrivals r)
    × (states r
        ≡ start_pending ∷ stop_reports arrivals.before
          ++ running ∷ stop_reports arrivals.between
          ++ stop_reports arrivals.during
          ++ last_reports arrivals)
Follows exit_1 arrivals out =
    (r : Reporter) × (out ≡ aborts r)
    × (states r ≡ start_pending ∷ stop_reports arrivals.before ++ stopped ∷ stopped ∷ [])
Follows Daemon.uncaught arrivals out =
    (r : Reporter) × (out ≡ ended_by_exception r)
    × (states r ≡ start_pending ∷ stop_reports arrivals.before)

map-append {ℓ κ} :
    {A : Type ℓ} {B : Type κ} (f : A → B) (xs ys : List A) → map f (xs ++ ys) ≡ map f xs ++ map f ys
map-append f [] ys = refl
map-append f (x ∷ xs) ys = ap (◌∷◌ (f x)) (map-append f xs ys)

states-report_svc_status :
    (state : ServiceState) (exit_code hint : ℕ) (r : Reporter)
    → states (report_svc_status state exit_code hint r) ≡ states r ++ state ∷ []
unfolding report_svc_status
states-report_svc_status state exit_code hint r = map-append _ r.reported _

states-svc_ctrl_handler :
    (c : Control) (r : Reporter)
    → states (svc_ctrl_handler c r).0 ≡ states r ++ stop_reports (c ∷ [])
unfolding svc_ctrl_handler report_svc_status
states-svc_ctrl_handler control_stop r =
    let r' = report_svc_status stop_pending 0 0 r in
    states-report_svc_status stop_pending 0 0 r'
    ∙ ap (λ xs. xs ++ stop_pending ∷ []) (states-report_svc_status stop_pending 0 0 r)
    ∙ append_assoc (states r) (stop_pending ∷ []) (stop_pending ∷ [])
states-svc_ctrl_handler control_interrogate r = sym (append-nil (states r))
states-svc_ctrl_handler control_other r = sym (append-nil (states r))

stop_reports-one :
    (c : Control) (cs : List Control)
    → stop_reports (c ∷ []) ++ stop_reports cs ≡ stop_reports (c ∷ cs)
stop_reports-one control_stop cs = refl
stop_reports-one control_interrogate cs = refl
stop_reports-one control_other cs = refl

states-handle_controls :
    (cs : List Control) (r : Reporter)
    → states (handle_controls cs r).0 ≡ states r ++ stop_reports cs
unfolding handle_controls
states-handle_controls [] r = sym (append-nil (states r))
states-handle_controls (c ∷ cs) r =
    states-handle_controls cs (svc_ctrl_handler c r).0
    ∙ ap (λ xs. xs ++ stop_reports cs) (states-svc_ctrl_handler c r)
    ∙ append_assoc (states r) (stop_reports (c ∷ [])) (stop_reports cs)
    ∙ ap (λ xs. states r ++ xs) (stop_reports-one c cs)

notified-handle_controls :
    (cs : List Control) (r : Reporter) → (handle_controls cs r).1 ≡ any_stop cs
unfolding handle_controls svc_ctrl_handler
notified-handle_controls [] r = refl
notified-handle_controls (control_stop ∷ cs) r = refl
notified-handle_controls (control_interrogate ∷ cs) r = notified-handle_controls cs r
notified-handle_controls (control_other ∷ cs) r = notified-handle_controls cs r

-- `svcInit` for what becomes of the daemon's `main`.
init_as : Start → Reporter → Init
init_as (serving svs) r = serves svs r
init_as exit_1 r = gives_up (report_svc_status stopped 0 0 r)
init_as Daemon.uncaught r = uncaught r

init_of-init_as : (l : Load) (r : Reporter) → init_of l r ≡ init_as (start_of l) r
unfolding init_of start_of give_up init_as
init_of-init_as (loaded svs) r = refl
init_of-init_as (failed svs) r = refl
init_of-init_as (thrown svs) r = refl

init_folder-init_as :
    (machine : BbEndianness) (host_name : Bytes) (folder : Option (List DirectoryEntry))
    (r : Reporter)
    → init_folder machine host_name folder r
      ≡ init_as (daemon_run (ipv4_string_to_uint_in long_32 machine) host_name folder) r
unfolding init_folder daemon_run give_up init_as
init_folder-init_as machine host_name none r = refl
init_folder-init_as machine host_name (some entries) r =
    init_of-init_as (load_entries (ipv4_string_to_uint_in long_32 machine) host_name entries []) r

init_path-init_as :
    (machine : BbEndianness) (host_name : Bytes) (env : Environment) (path : Option Bytes)
    (r : Reporter)
    → init_path machine host_name env path r
      ≡ init_as
          (daemon_run (ipv4_string_to_uint_in long_32 machine) host_name (services_folder env path))
          r
unfolding init_path
init_path-init_as machine host_name env none r = init_folder-init_as machine host_name none r
init_path-init_as machine host_name env (some pdpath) r =
    init_folder-init_as machine host_name (services_folder env (some pdpath)) r

svc_init-init_as :
    (machine : BbEndianness) (host_name : Bytes) (env : Environment) (r : Reporter)
    → svc_init machine host_name env r
      ≡ init_as (daemon_run (ipv4_string_to_uint_in long_32 machine) host_name (found_folder env)) r
unfolding svc_init
svc_init-init_as machine host_name env r = elim (Bool-cases env.creates_event) [
  | inl created ↦ rw created (init_path-init_as machine host_name env env.program_data r)
  | inr refused ↦ rw refused (init_folder-init_as machine host_name none r)
]

after_wait-states :
    (svs : List Service) (woken ends : Bool) (r : Reporter)
    → (r' : Reporter) × (after_wait svs woken ends r
        ≡ (if woken then (if ends then returns svs r' else joining svs r') else waits svs r'))
      × (states r' ≡ states r ++ (if woken then (if ends then stopped ∷ [] else []) else []))
unfolding after_wait
after_wait-states svs true true r =
    (report_svc_status stopped 0 0 r, refl, states-report_svc_status stopped 0 0 r)
after_wait-states svs true false r = (r, refl, sym (append-nil (states r)))
after_wait-states svs false ends r = (r, refl, sym (append-nil (states r)))

-- The reporter when the service comes to its wait, and the states that it has reported by then.
wait_begins : Arrivals → Reporter → Reporter
wait_begins arrivals r = (handle_controls arrivals.between (report_svc_status running 0 0 r)).0

states-wait_begins :
    (arrivals : Arrivals) (r : Reporter)
    → states (wait_begins arrivals r) ≡ states r ++ running ∷ stop_reports arrivals.between
unfolding wait_begins
states-wait_begins arrivals r =
    states-handle_controls arrivals.between (report_svc_status running 0 0 r)
    ∙ ap (λ xs. xs ++ stop_reports arrivals.between) (states-report_svc_status running 0 0 r)
    ∙ append_assoc (states r) (running ∷ []) (stop_reports arrivals.between)

after_init-Follows :
    (start : Start) (arrivals : Arrivals) (r : Reporter)
    → states r ≡ start_pending ∷ stop_reports arrivals.before
    → Follows start arrivals (after_init arrivals (init_as start r))
unfolding after_init init_as wait_begins
after_init-Follows (serving svs) arrivals r e =
    let served : Reporter × Bool = handle_controls arrivals.during (wait_begins arrivals r) in
    let woken : Bool = any_stop arrivals.during || arrivals.spurious in
    let notified : (served.1 || arrivals.spurious) ≡ woken =
      ap (λ b. b || arrivals.spurious) (notified-handle_controls arrivals.during _) in
    let (r', out, reports) = after_wait-states svs woken arrivals.listener_ends served.0 in
    (
      r',
      ap (λ b. after_wait svs b arrivals.listener_ends served.0) notified ∙ out,
      reports
          ∙ ap (λ xs. xs ++ last_reports arrivals)
              (states-handle_controls arrivals.during (wait_begins arrivals r)
                ∙ ap (λ xs. xs ++ stop_reports arrivals.during)
                    (states-wait_begins arrivals r
                      ∙ ap (λ xs. xs ++ running ∷ stop_reports arrivals.between) e)),
    )
after_init-Follows exit_1 arrivals r e =
    let r' = report_svc_status stopped 0 0 r in
    (
      report_svc_status stopped 0 0 r',
      refl,
      states-report_svc_status stopped 0 0 r'
          ∙ ap (λ xs. xs ++ stopped ∷ []) (states-report_svc_status stopped 0 0 r)
          ∙ append_assoc (states r) (stopped ∷ []) (stopped ∷ [])
          ∙ ap (λ xs. xs ++ stopped ∷ stopped ∷ []) e,
    )
after_init-Follows Daemon.uncaught arrivals r e = (r, refl, e)

-- The service comes to serve exactly what the daemon's `main` would serve from the same folder if
-- its `unsigned long` had 32 bits too, or fails or ends by an exception where that would. It
-- reports that its start is pending first, then that it runs, if it serves, and before and after
-- that, twice for each stop, that a stop is pending. When a stop is handled from the wait on, or
-- the wait ends by itself, it comes to `stopListener`, else it waits: a stop that is handled before
-- the wait does not end it. If the listener's thread ends, it returns and has reported last that it
-- has stopped; if not, it stays in `stopListener` and does not report that. After a failure it has
-- reported twice that it has stopped.
pub svc_main-Follows :
    (machine : BbEndianness) (host_name : Bytes) (env : Environment) (arrivals : Arrivals)
    → Follows
        (daemon_run (ipv4_string_to_uint_in long_32 machine) host_name (found_folder env))
        arrivals
        (svc_main machine host_name env true arrivals)
unfolding svc_main
svc_main-Follows machine host_name env arrivals = rw (svc_init-init_as machine host_name env _) (
    after_init-Follows
      (daemon_run (ipv4_string_to_uint_in long_32 machine) host_name (found_folder env)) arrivals _
      (states-handle_controls arrivals.before _ ∙ unfold report_svc_status in refl))
