-- ===== src/Coordinator/Log.antt =====
-- What the log of a run holds, read off the phase in which it ends.
use voxel_steward.Base.{ℕ, ◌+◌, ◌≡◌, Bool, true, false, if◌then◌else◌, List, [], ◌∷◌, String, arith}
use voxel_steward.Program.Protocol.{Accepts, over, step}
use voxel_steward.TaskQueue.Service.{finish}
use voxel_steward.Coordinator.{Op, dispatch_task, read, place, move, Answer}
use voxel_steward.Coordinator.Promise.{Phase, after_op, coordination}

abbrev pub is_place : Op → Bool
is_place (place command) = true
is_place _ = false

abbrev pub is_move : Op → Bool
is_move (move s) = true
is_move _ = false

-- How many of the operations asked for are of a kind.
abbrev pub count_asked : (Op → Bool) → List ((o : Op) × Answer o) → ℕ
count_asked test [] = 0
count_asked test (entry ∷ log) = (if test entry.0 then 1 else 0) + count_asked test log

after_op-moves :
    (p : Phase) (o : Op) (r : Answer o)
    → (after_op p o r).moves ≡ p.moves + (if is_move o then 1 else 0)
after_op-moves p (dispatch_task (finish i u)) r = omega arith
after_op-moves p (dispatch_task _) r = omega arith
after_op-moves p (place c) r = omega arith
after_op-moves p (read f) r = ground arith
after_op-moves p _ r = omega arith

module _ (id : String) (may : Phase → Op → Type 0) where
  pub Accepts-moves :
      {p q : Phase} {log : List ((o : Op) × Answer o)}
      → Accepts (coordination id may) p log q
      → q.moves ≡ p.moves + count_asked is_move log
  Accepts-moves over = omega arith
  Accepts-moves (step {p} {o} {r} a h) = omega (arith, Accepts-moves h, after_op-moves p o r)
