-- ===== src/Worker/Race/Ends.antt =====
-- How the thread of a request ends whose command is END, and how a cancelling thread is overtaken.
use libnhr.Base.{
  ℕ, ◌+◌, ◌-◌, ◌≤◌, ◌≡◌, refl, arith, Bool, true, false, List, [], ◌∷◌, ◌++◌, length, append-nil,
}
use libnhr.Exec.{done}
use libnhr.Codec.{Codec}
use libnhr.Request.{Request, end_command, inform_error}
use libnhr.Worker.{close}
use libnhr.Worker.Loop.{Call, Answers, inform, work}
use libnhr.Worker.Race.{
  Place, testing, entered, worked, leaving, left, gone, working, telling, found, System,
  cancel_move, work_move, work_moves,
}

-- in the first `switch`, with another command than END read
abbrev pub is_working : Place → Bool
is_working (working end_command) = false
is_working (working _) = true
is_working _ = false

-- the moves to the thread's end
abbrev pub moves_left : Place → ℕ
moves_left testing = 3
moves_left entered = 7
moves_left (working c) = 6
moves_left worked = 5
moves_left (telling c) = 4
moves_left leaving = 2
moves_left left = 1
moves_left gone = 0

-- the callback that has to come: the command to tell it was read before
abbrev pub due : Place → Request → List Call
due (telling c) r = (inform c r).1
due _ r = []

-- the deletion that has to come
abbrev pub owed : Place → ℕ
owed gone = 0
owed _ = 1

-- What one move from the place `p` does on the way to the end.
abbrev Nearer : Place → System → System → Type 0
Nearer p s s' =
    (s'.request.command ≡ end_command)
    × (is_working s'.place ≡ false)
    × (moves_left s'.place ≡ moves_left p - 1)
    × (s'.calls ≡ s.calls ++ due p s.request)
    × (due s'.place s'.request ≡ [])
    × (s'.deletions + owed s'.place ≡ s.deletions + owed p)

module _ (codec : Codec) where
  work_move-Nearer :
      (a : Answers) (p : Place) (s : System)
      → s.place ≡ p
      → s.request.command ≡ end_command
      → is_working p ≡ false
      → (s' : System) × (work_move codec a p s ≡ done s') × Nearer p s s'
  unfolding work_move inform
  work_move-Nearer a testing s at e o = (_, refl, grind (arith, e, append-nil s.calls))
  work_move-Nearer a entered s at e o = (_, refl, grind (arith, e, append-nil s.calls))
  work_move-Nearer a (working end_command) s at e o =
      unfold work in (_, refl, grind (arith, e, append-nil s.calls))
  work_move-Nearer a (working c) s at e o = absurd (ground (arith, o))
  work_move-Nearer a worked s at e o = (_, refl, grind (arith, e, append-nil s.calls))
  work_move-Nearer a (telling c) s at e o = (_, refl, grind (arith, e, append-nil s.calls))
  work_move-Nearer a leaving s at e o = (_, refl, grind (arith, e, append-nil s.calls))
  work_move-Nearer a left s at e o = unfold close in (_, refl, grind (arith, e, append-nil s.calls))
  work_move-Nearer a gone s at e o = (_, refl, grind (arith, e, at, append-nil s.calls))

-- the places that nothing is left from
moves_left_none : (p : Place) → moves_left p ≡ 0 → p ≡ gone
moves_left_none gone e = refl
moves_left_none p e = absurd (omega (arith, e))

-- If the command is END while the work thread is not in its first `switch` with another command,
-- then whatever is answered, the thread ends within seven moves, without a fault, and deletes the
-- request if it has not done so. It calls back only if it had read the command to do so before.
pub work_moves_ends :
    (codec : Codec) (as' : List Answers) (s : System)
    → s.request.command ≡ end_command
    → is_working s.place ≡ false
    → moves_left s.place ≤ length as'
    → (s' : System) × (work_moves codec as' s ≡ done s')
      × (s'.place ≡ gone)
      × (s'.deletions ≡ s.deletions + owed s.place)
      × (s'.calls ≡ s.calls ++ due s.place s.request)
unfolding work_moves
work_moves_ends codec [] s e o enough =
    let none_left : moves_left s.place ≡ 0 = omega (arith, enough) in
    let at = moves_left_none s.place none_left in
    (s, refl, at, grind (arith, at), grind (arith, at, append-nil s.calls))
work_moves_ends codec (a ∷ as') s e o enough =
    let (s1, run, (ended, idle_place, nearer, calls, none_due, owing)) =
      work_move-Nearer codec a s.place s refl e o in
    let (s2, runs, at, deletions, later) =
      work_moves_ends codec as' s1 ended idle_place (omega (arith, enough, nearer)) in
    (
      s2,
      rw (run) runs,
      at,
      omega (arith, deletions, owing),
      grind (arith, later, calls, none_due, append-nil s1.calls),
    )

-- A cancelling thread that has found the work thread, while this one has read the command to tell an
-- error, may be overtaken: within four moves of the work thread the request is deleted, and
-- `nhr_request_cancel` then writes the command of the deleted request.
pub cancel_overtaken :
    (codec : Codec) (a b c d : Answers) (s : System)
    → s.canceller ≡ found
    → s.place ≡ telling inform_error
    → (s' : System) × (work_moves codec (a ∷ b ∷ c ∷ d ∷ []) s ≡ done s')
      × ((cancel_move s'.canceller s').misused ≡ true)
unfolding work_moves work_move inform cancel_move
cancel_overtaken codec a b c d s finds at = rw (at, finds) (_, refl, ground arith)
