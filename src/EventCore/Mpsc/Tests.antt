-- ===== src/EventCore/Mpsc/Tests.antt =====
-- A run in which one producer is between the two halves of its enqueue.
use velox_quant.Base.{All, ℕ, ◌-◌, some, true, ◌≡◌, refl, lookup, erase, List, [], ◌∷◌, length}
use velox_quant.EventCore.Mpsc.{
  MpscQueue, new_queue, exchange, dequeue, destroy, free_from, empty, exchanges,
}
use velox_quant.EventCore.Mpsc.Linked.{MpscOk}
use velox_quant.EventCore.Mpsc.Order.{Gives}
use velox_quant.EventCore.Mpsc.Reach.{Reaches, starts, then_, enqueued, took, Linkable, run-InOrder}
use velox_quant.EventCore.Mpsc.Drain.{Settles, run-Settles}

abbrev half_way : MpscQueue ℕ
half_way = exchange 7 new_queue

abbrev sevens : List ℕ
sevens = 7 ∷ []

half_way-Reaches : Reaches sevens 0 half_way
unfolding enqueued took
half_way-Reaches = then_ [] 0 new_queue half_way starts (exchanges new_queue 7)

run-InOrder_example :
    Gives sevens 0 half_way (dequeue half_way) × All (Linkable half_way) half_way.pending
run-InOrder_example = run-InOrder sevens 0 half_way half_way-Reaches

run-Settles_example :
    (q' : MpscQueue ℕ) × Settles (length sevens - 0) half_way q' × MpscOk sevens 1 q'
run-Settles_example = run-Settles sevens 0 half_way half_way-Reaches

destroy_new : (destroy (new_queue {A = ℕ}) ≡ some []) × (empty (new_queue {A = ℕ}) ≡ some true)
unfolding destroy free_from empty lookup erase
destroy_new = (refl, refl)
