-- ===== src/Daemon/WindowsService/Reports.antt =====
-- What the service control manager is told, whatever happens to the service.
use nyan_sd.Base.{
  ℕ, zero, suc, ◌+◌, ◌%◌, ◌^◌, ◌≡◌, refl, sym, ap, ◌∙◌, inl, inr, Bool, true, false, not,
  if◌then◌else◌, Bool-cases, Option, none, some, List, [], ◌∷◌, ◌++◌, append-nil, arith, length,
  length-append, All, All-append, Bytes,
}
use nyan_sd.ByteBauble.{BbEndianness}
use nyan_sd.Nyansd.{Service}
use nyan_sd.Nyansd.Ipv4.{long_32, ipv4_string_to_uint_in}
use nyan_sd.Daemon.{DirectoryEntry, Load, loaded, failed, thrown, load_entries}
use nyan_sd.Daemon.WindowsService.{
  ServiceState, stopped, start_pending, stop_pending, running, ServiceStatus, Reporter, unreported,
  is_start_pending, is_settled, report_svc_status, Control, control_stop, control_interrogate,
  control_other, svc_ctrl_handler, handle_controls, Environment, Init, serves, gives_up, uncaught,
  svc_init, ServiceRun, unregistered, aborts, returns, ended_by_exception, waits, joining, Arrivals,
  svc_main, after_wait, after_init, init_of, init_folder, init_path, give_up,
}

-- A report: a stop is accepted but while the start is pending; a service that runs or has stopped
-- has check point 0; no error is ever reported.
pub record IsReport (s : ServiceStatus) : Type 0 where
  pub own : s.own_process ≡ true
  pub accepts : s.accept_stop ≡ not (is_start_pending s.current_state)
  pub settled : is_settled s.current_state ≡ true → s.check_point ≡ 0
  pub no_error : s.exit_code ≡ 0
  pub no_specific_error : s.specific_exit_code ≡ 0

-- The check points of the reports of something pending.
abbrev pub check_points : List ServiceStatus → List ℕ
check_points [] = []
check_points (s ∷ ss) =
    let rest = check_points ss in if is_settled s.current_state then rest else s.check_point ∷ rest

-- The `n` numbers from `k` on, in 32 bits.
abbrev pub count_up : ℕ → ℕ → List ℕ
count_up k zero = []
count_up k (suc n) = k % 2 ^ 32 ∷ count_up (suc k) n

check_points-append :
    (xs ys : List ServiceStatus) → check_points (xs ++ ys) ≡ check_points xs ++ check_points ys
check_points-append [] ys = refl
check_points-append (x ∷ xs) ys = elim (Bool-cases (is_settled x.current_state)) [
  | inl settled ↦ rw settled (check_points-append xs ys)
  | inr pending ↦ rw pending (ap (◌∷◌ x.check_point) (check_points-append xs ys))
]

count_up-suc : (k n : ℕ) → count_up k (suc n) ≡ count_up k n ++ (k + n) % 2 ^ 32 ∷ []
count_up-suc k zero = ap (λ x. x % 2 ^ 32 ∷ []) (omega arith)
count_up-suc k (suc n) =
    ap (◌∷◌ (k % 2 ^ 32))
      (count_up-suc (suc k) n ∙ ap (λ x. count_up (suc k) n ++ x % 2 ^ 32 ∷ []) (omega arith))

-- The check points given out are 1, 2, 3 and so on, in 32 bits, and `n` is the one to follow.
abbrev pub Numbered : List ℕ → ℕ → Type 0
Numbered cps n = (n ≡ (1 + length cps) % 2 ^ 32) × (cps ≡ count_up 1 (length cps))

Numbered-append :
    (cps : List ℕ) (n : ℕ) → Numbered cps n → Numbered (cps ++ n ∷ []) ((n + 1) % 2 ^ 32)
Numbered-append cps n (e, e') =
    let longer : length (cps ++ n ∷ []) ≡ suc (length cps) =
      length-append cps (n ∷ []) ∙ omega arith in
    (
      omega (arith, e, longer),
      ap (λ xs. xs ++ n ∷ []) e'
          ∙ ap (λ x. count_up 1 (length cps) ++ x ∷ []) e
          ∙ sym (count_up-suc 1 (length cps))
          ∙ ap (count_up 1) (sym longer),
    )

-- The reports so far are as they should be, and so is what the next one will be made from.
pub record IsOrderly (r : Reporter) : Type 0 where
  pub own : r.status.own_process ≡ true
  pub no_specific_error : r.status.specific_exit_code ≡ 0
  pub reports : All IsReport r.reported
  pub numbered : Numbered (check_points r.reported) r.next_check_point

given_check_point-Numbered :
    (settled : Bool) (ss : List ServiceStatus) (s : ServiceStatus) (n : ℕ)
    → is_settled s.current_state ≡ settled
    → s.check_point ≡ (if settled then 0 else n)
    → Numbered (check_points ss) n
    → Numbered (check_points (ss ++ s ∷ [])) (if settled then n else (n + 1) % 2 ^ 32)
given_check_point-Numbered true ss s n e c h = rw (check_points-append ss (s ∷ []), e, append-nil) h
given_check_point-Numbered false ss s n e c h =
    rw (check_points-append ss (s ∷ []), e, c) (Numbered-append (check_points ss) n h)

report_svc_status-IsOrderly :
    (state : ServiceState) (hint : ℕ) (r : Reporter)
    → IsOrderly r
    → IsOrderly (report_svc_status state 0 hint r)
unfolding report_svc_status
report_svc_status-IsOrderly state hint r h = record {
  own = h.own;
  no_specific_error = h.no_specific_error;
  reports = All-append IsReport r.reported _ h.reports (
    record {
      own = h.own;
      accepts = refl;
      settled = λ e. rw e;
      no_error = refl;
      no_specific_error = h.no_specific_error;
    },
    tt,
  );
  numbered =
      given_check_point-Numbered (is_settled state) r.reported _ r.next_check_point refl refl
        h.numbered;
}

svc_ctrl_handler-IsOrderly :
    (c : Control) (r : Reporter) → IsOrderly r → IsOrderly (svc_ctrl_handler c r).0
unfolding svc_ctrl_handler
svc_ctrl_handler-IsOrderly control_stop r h =
    report_svc_status-IsOrderly _ 0 _ (report_svc_status-IsOrderly stop_pending 0 r h)
svc_ctrl_handler-IsOrderly control_interrogate r h = h
svc_ctrl_handler-IsOrderly control_other r h = h

handle_controls-IsOrderly :
    (cs : List Control) (r : Reporter) → IsOrderly r → IsOrderly (handle_controls cs r).0
unfolding handle_controls
handle_controls-IsOrderly [] r h = h
handle_controls-IsOrderly (c ∷ cs) r h =
    handle_controls-IsOrderly cs _ (svc_ctrl_handler-IsOrderly c r h)

-- The reporter is orderly, however far `svcInit` comes.
abbrev InitOrderly : Init → Type 0
InitOrderly (serves services r) = IsOrderly r
InitOrderly (gives_up r) = IsOrderly r
InitOrderly (uncaught r) = IsOrderly r

give_up-InitOrderly : (r : Reporter) → IsOrderly r → InitOrderly (give_up r)
unfolding give_up
give_up-InitOrderly r h = report_svc_status-IsOrderly stopped 0 r h

init_of-InitOrderly : (l : Load) (r : Reporter) → IsOrderly r → InitOrderly (init_of l r)
unfolding init_of
init_of-InitOrderly (loaded services) r h = h
init_of-InitOrderly (failed services) r h = give_up-InitOrderly r h
init_of-InitOrderly (thrown services) r h = h

module _ (machine : BbEndianness) (host_name : Bytes) (env : Environment) where
  init_folder-InitOrderly :
      (folder : Option (List DirectoryEntry)) (r : Reporter)
      → IsOrderly r
      → InitOrderly (init_folder machine host_name folder r)
  unfolding init_folder
  init_folder-InitOrderly none r h = give_up-InitOrderly r h
  init_folder-InitOrderly (some entries) r h =
      init_of-InitOrderly
        (load_entries (ipv4_string_to_uint_in long_32 machine) host_name entries []) r h

  init_path-InitOrderly :
      (path : Option Bytes) (r : Reporter)
      → IsOrderly r
      → InitOrderly (init_path machine host_name env path r)
  unfolding init_path
  init_path-InitOrderly none r h = give_up-InitOrderly r h
  init_path-InitOrderly (some pdpath) r h = init_folder-InitOrderly _ r h

  svc_init-InitOrderly :
      (r : Reporter) → IsOrderly r → InitOrderly (svc_init machine host_name env r)
  unfolding svc_init
  svc_init-InitOrderly r h = elim (Bool-cases env.creates_event) [
    | inl created ↦ rw created (init_path-InitOrderly env.program_data r h)
    | inr refused ↦ rw refused (give_up-InitOrderly r h)
  ]

-- What holds of the reporter in the end, or when the service waits.
abbrev pub Afterwards : (Reporter → Type 0) → ServiceRun → Type 0
Afterwards P (unregistered logged) = Unit
Afterwards P (aborts r) = P r
Afterwards P (returns services r) = P r
Afterwards P (ended_by_exception r) = P r
Afterwards P (waits services r) = P r
Afterwards P (joining services r) = P r

after_wait-IsOrderly :
    (services : List Service) (woken listener_ends : Bool) (r : Reporter)
    → IsOrderly r
    → Afterwards IsOrderly (after_wait services woken listener_ends r)
unfolding after_wait
after_wait-IsOrderly services true true r h = report_svc_status-IsOrderly stopped 0 r h
after_wait-IsOrderly services true false r h = h
after_wait-IsOrderly services false ends r h = h

after_init-IsOrderly :
    (arrivals : Arrivals) (i : Init) → InitOrderly i → Afterwards IsOrderly (after_init arrivals i)
unfolding after_init
after_init-IsOrderly arrivals (gives_up r) h = report_svc_status-IsOrderly stopped 0 r h
after_init-IsOrderly arrivals (uncaught r) h = h
after_init-IsOrderly arrivals (serves services r) h = after_wait-IsOrderly services _ _ _ (
    handle_controls-IsOrderly arrivals.during _
      (handle_controls-IsOrderly arrivals.between _ (report_svc_status-IsOrderly running 0 r h)))

-- Whatever the service finds and whichever control codes arrive, the reports to the service
-- control manager are in order: a stop is accepted but while the start is pending; the check
-- point is 0 where the service runs or has stopped, and the others are 1, 2, 3 and so on, in 32
-- bits; the exit code is always that of no error, also after a failure.
pub svc_main-IsOrderly :
    (machine : BbEndianness) (host_name : Bytes) (env : Environment) (registered : Bool)
    (arrivals : Arrivals)
    → Afterwards IsOrderly (svc_main machine host_name env registered arrivals)
unfolding svc_main
svc_main-IsOrderly machine host_name env false arrivals = tt
svc_main-IsOrderly machine host_name env true arrivals = after_init-IsOrderly arrivals _ (
    svc_init-InitOrderly machine host_name env _ (
      handle_controls-IsOrderly arrivals.before _
        (report_svc_status-IsOrderly start_pending 3000 _ fresh)))
  where
    fresh : IsOrderly (record unreported {
      status = record unreported.status { own_process = true; specific_exit_code = 0 };
    })
    fresh = record { own = refl; no_specific_error = refl; reports = tt; numbered = (refl, refl) }
