-- ===== src/Cec/Poll/Drain.antt =====
-- `poll_cec_events` handles every queued message, in the order of arrival, and empties the queue.
use camview_opipc.Base.{
  ℕ, zero, suc, ◌<◌, ◌≡◌, refl, Bool, false, ◌||◌, not, some, List, [], ◌∷◌, ◌++◌, length, arith,
  ◌==◌,
}
use camview_opipc.Cec.Queue.{Message, Queue}
use camview_opipc.Cec.Queue.Linked.{Cells}
use camview_opipc.Cec.Queue.Fifo.{IsQueue, messages, take_message-nil, take_message-cons}
use camview_opipc.Cec.Apply.{Float, SetCtrl}
use camview_opipc.Cec.Poll.{Latches, Camera, dispatch, calls_of, poll_loop, poll_cec_events}

module _ (fl : Float) (cam : Camera) where
  -- The messages handled one after another.
  pub handle_all : Latches → List Message → List SetCtrl → Bool → Latches × List SetCtrl × Bool
  handle_all s [] calls changed = (s, calls, changed)
  handle_all s (m ∷ ms) calls changed =
      let e = dispatch fl cam s m in
      handle_all e.0 ms (calls ++ calls_of fl cam e.1.0) (changed || not (e.1.1 == 0))

  poll_loop-handle_all :
      (xs : Cells) (fuel : ℕ) (s : Latches) (q : Queue) (calls : List SetCtrl) (changed : Bool)
      → length xs < fuel
      → IsQueue q xs
      → (q' : Queue) × (let (s', calls', changed') = handle_all s (messages xs) calls changed in
          poll_loop fl cam fuel s q calls changed ≡ some (s', q', calls', changed'))
        × IsQueue q' []
  unfolding poll_loop handle_all
  poll_loop-handle_all xs zero s q calls changed h v = absurd (omega arith)
  poll_loop-handle_all [] (suc fuel) s q calls changed h v =
      (q, rw (take_message-nil q v, poll_loop) refl, v)
  poll_loop-handle_all ((a, m) ∷ xs) (suc fuel) s q calls changed h v =
      let (q', e, v') = take_message-cons q a m xs v in
      let d = dispatch fl cam s m in
      let (r, same, w) =
        poll_loop-handle_all xs fuel d.0 q' (calls ++ calls_of fl cam d.1.0)
          (changed || not (d.1.1 == 0)) (omega arith) v' in
      (r, rw (e, poll_loop) same, w)

  -- With more fuel than messages in a well-formed queue, the loop ends with the queue empty, and has handled all messages in
  -- the order in which they were added.
  pub poll_cec_events-handle_all :
      (xs : Cells) (fuel : ℕ) (s : Latches) (q : Queue)
      → length xs < fuel
      → IsQueue q xs
      → (q' : Queue) × (let (s', calls, changed) = handle_all s (messages xs) [] false in
          poll_cec_events fl cam fuel s q ≡ some (s', q', calls, changed))
        × IsQueue q' []
  unfolding poll_cec_events
  poll_cec_events-handle_all xs fuel s q = poll_loop-handle_all xs fuel s q [] false
