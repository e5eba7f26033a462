-- ===== src/Server/Shutdown.antt =====
-- cmd/server/main.go: `main` from `ListenAndServe` on. Requests and connections come and go as net/http
-- documents it: a connection that is upgraded is no longer the server's, `Shutdown` closes the listener,
-- waits for the requests that are being served, and returns an error at its deadline.
use chatroom_server.Base.{
  ℕ, ◌+◌, ◌-◌, ◌≡◌, ◌⊎◌, refl, Bool, true, false, List, [], ◌∷◌, ltb, ◌==◌, if◌then◌else◌, arith,
  Bool-cases, inl, inr,
}

-- Listening; after a signal, in `Shutdown`; after the end of `main`; and after `Fatalf`.
pub data Phase : Type 0 where
  serving draining finished fatal : Phase

-- The requests that are being served, the open web sockets, and whether a signal has come and whether the
-- deadline of `Shutdown` has passed.
pub record Process : Type 0 where
  pub phase : Phase
  pub in_flight : ℕ
  pub sockets : ℕ
  pub signalled : Bool
  pub timed_out : Bool

-- A request begins, ends, or is upgraded; a web socket ends; `ListenAndServe` fails, other than by
-- `ErrServerClosed`; SIGINT or SIGTERM; `Shutdown` looks at the requests; its ten seconds are over.
pub data Happening : Type 0 where
  begins ends upgrades closes listen_fails signal polls deadline : Happening

abbrev pub begun : Phase → Process → Process
begun serving p = record p { in_flight = p.in_flight + 1 }
begun phase p = p

abbrev pub upgraded : Process → Process
upgraded p =
    if ltb 0 p.in_flight
    then record p { in_flight = p.in_flight - 1; sockets = p.sockets + 1 }
    else p

abbrev pub listener_failed : Phase → Process → Process
listener_failed serving p = record p { phase = fatal }
listener_failed phase p = p

abbrev pub signal_came : Phase → Process → Process
signal_came serving p = record p { phase = draining; signalled = true }
signal_came phase p = p

abbrev pub polled : Phase → Process → Process
polled draining p = if p.in_flight == 0 then record p { phase = finished } else p
polled phase p = p

abbrev pub deadline_passed : Phase → Process → Process
deadline_passed draining p = record p { phase = finished; timed_out = true }
deadline_passed phase p = p

abbrev pub is_over : Phase → Bool
is_over serving = false
is_over draining = false
is_over finished = true
is_over fatal = true

abbrev pub happens : Happening → Process → Process
happens begins p = begun p.phase p
happens ends p = record p { in_flight = p.in_flight - 1 }
happens upgrades p = upgraded p
happens closes p = record p { sockets = p.sockets - 1 }
happens listen_fails p = listener_failed p.phase p
happens signal p = signal_came p.phase p
happens polls p = polled p.phase p
happens deadline p = deadline_passed p.phase p

-- Nothing happens to a process that is over.
unfoldable pub step : Happening → Process → Process
step e p = if is_over p.phase then p else happens e p

unfoldable pub run_process : List Happening → Process → Process
run_process [] p = p
run_process (e ∷ es) p = run_process es (step e p)

abbrev pub listening_process : Process
listening_process = record {
  phase = serving;
  in_flight = 0;
  sockets = 0;
  signalled = false;
  timed_out = false;
}

-- A process that has a signal behind it has had one, and one that has ended without the deadline has served
-- its requests.
pub record IsOrderly (p : Process) : Type 0 where
  pub drains : p.phase ≡ draining → p.signalled ≡ true
  pub stops : p.phase ≡ finished → p.signalled ≡ true
  pub served : p.phase ≡ finished → p.timed_out ≡ false → p.in_flight ≡ 0

Phase-cases : (x : Phase) → (x ≡ serving) ⊎ ((x ≡ draining) ⊎ ((x ≡ finished) ⊎ (x ≡ fatal)))
Phase-cases serving = inl refl
Phase-cases draining = inr (inl refl)
Phase-cases finished = inr (inr (inl refl))
Phase-cases fatal = inr (inr (inr refl))

step-IsOrderly : (e : Happening) (p : Process) → IsOrderly p → IsOrderly (step e p)
unfolding step
step-IsOrderly e p h = record {
  drains = ground (arith, h.drains, Phase-cases p.phase);
  stops = ground (arith, h.drains, h.stops, Phase-cases p.phase);
  served = ground (arith, h.served, Phase-cases p.phase);
}

run-IsOrderly : (es : List Happening) (p : Process) → IsOrderly p → IsOrderly (run_process es p)
unfolding run_process
run-IsOrderly [] p h = h
run-IsOrderly (e ∷ es) p h = run-IsOrderly es (step e p) (step-IsOrderly e p h)

-- Whatever happens to a process that listens: where `main` has come to its end, a signal has come, and no
-- request is being served any more unless the deadline has passed.
pub run_process-finished :
    (es : List Happening)
    → (run_process es listening_process).phase ≡ finished
    → ((run_process es listening_process).signalled ≡ true)
      × (((run_process es listening_process).timed_out ≡ true)
          ⊎ ((run_process es listening_process).in_flight ≡ 0))
run_process-finished es e =
    let h =
      run-IsOrderly es listening_process
        (record { drains = ground arith; stops = ground arith; served = ground arith }) in
    (
      h.stops e,
      elim (Bool-cases (run_process es listening_process).timed_out) [
        | inl late ↦ inl late
        | inr early ↦ inr (h.served e early)
      ],
    )
