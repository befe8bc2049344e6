-- ===== src/WorkQueue/Tests.antt =====
-- The laws of the work queue on a short run.
use llir_opt.Prelude.{ℕ, zero, suc, ◌≡◌, refl, ◌⊎◌, true, false, [], ◌∷◌, none, some, arith}
use llir_opt.WorkQueue.{WorkQueue, push, pop}
use llir_opt.WorkQueue.Vectors.{flag, contains}
use llir_opt.WorkQueue.Laws.{pending, IsValid, push-pending, pop-pending}

-- 2 and 0 are pending in this order.
abbrev two_pending : WorkQueue
two_pending = record { place = 0 ∷ []; take = 2 ∷ []; dedup = true ∷ false ∷ true ∷ [] }

two_pending-flagged : (a : ℕ) → flag two_pending.dedup a ≡ contains (pending two_pending) a
two_pending-flagged zero = refl
two_pending-flagged (suc zero) = refl
two_pending-flagged (suc (suc zero)) = refl
two_pending-flagged (suc (suc (suc a))) = ground arith

two_pending-IsValid : IsValid two_pending
two_pending-IsValid = record { flagged = two_pending-flagged; distinct = (refl, (refl, tt)) }

push-pending_example :
    (q' : WorkQueue) × (push two_pending 1 ≡ some q') × IsValid q' × (pending q' ≡ 2 ∷ 0 ∷ 1 ∷ [])
push-pending_example = push-pending two_pending 1 two_pending-IsValid (omega arith)

pop-pending_example :
    ((pending two_pending ≡ []) × (pop two_pending ≡ none))
    ⊎ ((a : ℕ) × (q' : WorkQueue) × (pop two_pending ≡ some (q', a))
        × IsValid q'
        × (pending two_pending ≡ a ∷ pending q'))
pop-pending_example = pop-pending two_pending two_pending-IsValid
