-- ===== src/Tests/Race.antt =====
-- A request that is cancelled while its host is looked up.
use libnhr.Base.{◌≡◌, ◌≢◌, ◌⊎◌, refl, arith, some, Bool, true, false, List, [], ◌∷◌}
use libnhr.Exec.{Exec, done, fault, no_fuel}
use libnhr.Clib.Strings.{codes}
use libnhr.Request.Public.{send_request}
use libnhr.Request.{
  Request, method_get, connect_to_host, end_command, inform_error, failed_connect_to_host,
}
use libnhr.Worker.{close, set_command, check_timeout}
use libnhr.Worker.Connect as Connect
use libnhr.Worker.Connect.{resolve_from, connect_getaddr_info, connect_resolved}
use libnhr.Worker.Loop.{Call, on_error, inform, work}
use libnhr.Worker.Machine.Runs.{Told}
use libnhr.Worker.Race.{System, telling, gone, found, over, cancel_move, work_move, work_moves}
use libnhr.Worker.Race.Inv.{
  begun, Reach, start, works, cancels, is_behind, Reach-unused, Reach-Told,
}
use libnhr.Worker.Race.Promise.{shows, Goes, GoesOn, view, moves, Reach-GoesOn}
use libnhr.Worker.Race.Ends.{work_moves_ends, cancel_overtaken}
use libnhr.Tests.Response.{no_codec}
use libnhr.Tests.Worker.{sent_request, answers}

-- before it is sent, and behind that
abbrev unsent : Request
unsent = record sent_request {
  scheme = some (codes "http");
  host = some (codes "example.org");
  path = some (codes "/");
  method = method_get;
  on_recvd_response = some 2;
}

abbrev ready : Request
ready = record unsent { command = connect_to_host; work_thread = some 7 }

unsent_lem : send_request (some 7) unsent ≡ (ready, true)
unfolding send_request
unsent_lem = refl

-- `true` for a move of the work thread, `false` for one of the cancelling thread, which is not made
-- once a callback has been
unfoldable one : Bool → System → System
one true s = elim (work_move no_codec answers s.place s) [ done t ↦ t | fault ↦ s | no_fuel ↦ s ]
one false s = elim s.calls [ [] ↦ cancel_move s.canceller s | c ∷ cs ↦ s ]

unfoldable run : List Bool → System → System
run [] s = s
run (b ∷ bs) s = run bs (one b s)

one-Reach : (b : Bool) (s : System) → Reach no_codec ready s → Reach no_codec ready (one b s)
unfolding one
one-Reach true s m = worked (work_move no_codec answers s.place s) refl
  where
    worked :
        (e : Exec System)
        → work_move no_codec answers s.place s ≡ e
        → Reach no_codec ready (elim e [ done t ↦ t | fault ↦ s | no_fuel ↦ s ])
    worked (done t) e = works m answers e
    worked fault e = m
    worked no_fuel e = m
one-Reach false s m = cancelled s.calls refl
  where
    cancelled :
        (cs : List Call)
        → s.calls ≡ cs
        → Reach no_codec ready (elim cs [ [] ↦ cancel_move s.canceller s | c ∷ cs' ↦ s ])
    cancelled [] e = cancels m e
    cancelled (c ∷ cs') e = m

run-Reach : (bs : List Bool) (s : System) → Reach no_codec ready s → Reach no_codec ready (run bs s)
unfolding run
run-Reach [] s m = m
run-Reach (b ∷ bs) s m = run-Reach bs (one b s) (one-Reach b s m)

-- the command is read, then the request is cancelled, then the host is looked up
abbrev overwritten : List Bool
overwritten = true ∷ true ∷ false ∷ false ∷ true ∷ true ∷ true ∷ true ∷ true ∷ true ∷ []

overwritten_calls : (run overwritten (begun ready)).calls ≡ on_error failed_connect_to_host ∷ []
unfolding run one work_move cancel_move work inform close set_command check_timeout
    Connect.connect_to_host connect_getaddr_info resolve_from connect_resolved
overwritten_calls = refl

Reach-unused_example :
    ((run overwritten (begun ready)).misused ≡ false)
    × ((run overwritten (begun ready)).deletions ≡ 1)
unfolding run one work_move cancel_move work inform close set_command check_timeout
    Connect.connect_to_host connect_getaddr_info resolve_from connect_resolved
Reach-unused_example =
    Reach-unused (some 7) unsent ready unsent_lem (run-Reach overwritten (begun ready) start)

Reach-Told_example :
    Told (run overwritten (begun ready)).request (run overwritten (begun ready)).calls
    × ((is_behind (run overwritten (begun ready)).place ≡ false)
        ⊎ ((run overwritten (begun ready)).calls ≢ [])
        ⊎ ((run overwritten (begun ready)).canceller ≡ over))
Reach-Told_example =
    Reach-Told (some 7) unsent ready unsent_lem (run-Reach overwritten (begun ready) start)

-- the same up to the callback, and with it
abbrev before_callback : List Bool
before_callback = true ∷ true ∷ false ∷ false ∷ true ∷ true ∷ []

abbrev behind_callback : List Bool
behind_callback = true ∷ true ∷ false ∷ false ∷ true ∷ true ∷ true ∷ []

Reach-GoesOn_example :
    GoesOn (shows false [] 0) (view (run before_callback (begun ready)))
    × Goes (view (run before_callback (begun ready))) (view (run behind_callback (begun ready)))
unfolding run one work_move cancel_move work inform close set_command check_timeout
    Connect.connect_to_host connect_getaddr_info resolve_from connect_resolved
Reach-GoesOn_example =
    Reach-GoesOn (some 7) unsent ready unsent_lem (run-Reach before_callback (begun ready) start)
      (moves answers refl)

abbrev to_tell : System
to_tell = record (begun ready) {
  place = telling inform_error;
  request = record ready { command = inform_error; error_code = failed_connect_to_host };
  canceller = found;
}

cancel_overtaken_example :
    (s' : System) × (work_moves no_codec (answers ∷ answers ∷ answers ∷ answers ∷ []) to_tell
      ≡ done s')
    × ((cancel_move s'.canceller s').misused ≡ true)
cancel_overtaken_example =
    cancel_overtaken no_codec answers answers answers answers to_tell refl refl

-- cancelled before the loop's next test
abbrev to_end : System
to_end = record (begun ready) { request = record ready { command = end_command }; canceller = over }

work_moves_ends_example :
    (s' : System) × (work_moves no_codec (answers ∷ answers ∷ answers ∷ []) to_end ≡ done s')
    × (s'.place ≡ gone)
    × (s'.deletions ≡ 1)
    × (s'.calls ≡ [])
work_moves_ends_example =
    work_moves_ends no_codec (answers ∷ answers ∷ answers ∷ []) to_end refl refl (omega arith)
