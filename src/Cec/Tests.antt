-- ===== src/Cec/Tests.antt =====
-- The CEC functions on a camera with two controls.
use text.Mathlib.Text.{◌==◌ as str_eq}
use camview_opipc.Base.{
  ℕ, ◌≡◌, ◌≢◌, refl, true, false, none, some, List, [], ◌∷◌, arith, ◌==◌, if◌then◌else◌,
}
use camview_opipc.Base.Int.{ℤ, pos, ◌+ℤ◌, ◌-ℤ◌, ◌*ℤ◌}
use camview_opipc.Cec.Queue.{Message, Heap, Queue, empty, add_message_to_queue, read_message}
use camview_opipc.Cec.Queue.Fifo.{IsQueue, adds, takes, run, run_list, run_refines}
use camview_opipc.Cec.Receive.{Round, succeeds, fails, rx_loop, rx_loop-eq}
use camview_opipc.Cec.Apply.{Float, CtrlType, QueryCtrl, quot, apply_value}
use camview_opipc.Cec.Apply.Values.{apply_value_wrong_id}
use camview_opipc.Cec.Poll.{Latches, Camera, poll_cec_events, dispatch}
use camview_opipc.Cec.Poll.Drain.{handle_all, poll_cec_events-handle_all}

-- Numbers in thousandths.
thousandths : Float
unfolding quot ◌+ℤ◌ ◌-ℤ◌ ◌*ℤ◌
thousandths = record {
  F = ℤ;
  of_int = λ n. n *ℤ pos 1000;
  add = λ a b. a +ℤ b;
  sub = λ a b. a -ℤ b;
  mul = λ a b. quot (a *ℤ b) (pos 1000);
  div = λ a b. quot (a *ℤ pos 1000) b;
  round = λ a. quot a (pos 1000);
}

abbrev contrast : QueryCtrl
contrast = record {
  name = "Contrast";
  type = CtrlType.integer;
  minimum = pos 0;
  maximum = pos 95;
  step = pos 1;
}

abbrev temperature : QueryCtrl
temperature = record {
  name = "White Balance Temperature";
  type = CtrlType.integer;
  minimum = pos 2805;
  maximum = pos 6500;
  step = pos 10;
}

abbrev cam : Camera
cam = record {
  query = λ i. if i == 101 then some contrast else if i == 126 then some temperature else none;
  base = 100;
  count = 40;
}

abbrev no_latches : Latches
no_latches = record {
  contrast_data2 = 0;
  saturation_data2 = 0;
  pivot_data2 = 0;
  luma_data2 = 0;
  shutter_data2 = 0;
}

abbrev half_contrast : Message
half_contrast = record { code = 0x20; data1 = 0; data2 = 8; has_data2 = true }

abbrev warm : Message
warm = record { code = 0x54; data1 = 80; data2 = 0; has_data2 = false }

abbrev no_nodes : Heap
no_nodes a = record { message = warm; next = 0 }

two_messages : Queue
unfolding add_message_to_queue
two_messages = add_message_to_queue 8 warm (add_message_to_queue 4 half_contrast (empty no_nodes))

two_messages-IsQueue : IsQueue two_messages ((4, half_contrast) ∷ (8, warm) ∷ [])
unfolding two_messages
two_messages-IsQueue = record {
  chain = (refl, (omega arith), refl, ((omega arith), tt), (refl, (omega arith), refl, tt, refl));
  end = refl;
}

dispatch-half_contrast : dispatch thousandths cam no_latches half_contrast ≡ (
  record no_latches { contrast_data2 = 8 },
  (some (record { id = 1; value = some (pos 47) }), 1),
)
unfolding dispatch thousandths apply_value
dispatch-half_contrast = refl

run_refines_example :
    run two_messages (takes ∷ adds 4 warm ∷ takes ∷ takes ∷ takes ∷ [])
    ≡ some half_contrast ∷ some warm ∷ some warm ∷ none ∷ []
unfolding run_list
run_refines_example =
    run_refines two_messages ((4, half_contrast) ∷ (8, warm) ∷ [])
      (takes ∷ adds 4 warm ∷ takes ∷ takes ∷ takes ∷ []) two_messages-IsQueue (omega arith)

poll_cec_events-handle_all_example :
    (q' : Queue) × (let (s', calls, changed) =
        handle_all thousandths cam no_latches (half_contrast ∷ warm ∷ []) [] false in
      poll_cec_events thousandths cam 3 no_latches two_messages ≡ some (s', q', calls, changed))
    × IsQueue q' []
poll_cec_events-handle_all_example =
    poll_cec_events-handle_all thousandths cam ((4, half_contrast) ∷ (8, warm) ∷ []) 3 no_latches
      two_messages (omega arith) two_messages-IsQueue

-- One message from the television, one from another device, and the adapter unplugged.
abbrev rounds : List Round
rounds =
    record {
      select_failed = false;
      readable = true;
      receive = succeeds;
      received = record { msg = 0x01 ∷ 0x54 ∷ 80 ∷ []; len = 3 };
    }
    ∷ record {
      select_failed = false;
      readable = true;
      receive = succeeds;
      received = record { msg = 0x41 ∷ 0x54 ∷ 90 ∷ []; len = 3 };
    }
    ∷ record {
      select_failed = false;
      readable = true;
      receive = fails 19;
      received = record { msg = []; len = 0 };
    }
    ∷ []

rx_loop-eq_example : rx_loop rounds ≡ warm ∷ []
unfolding read_message
rx_loop-eq_example = rx_loop-eq rounds

apply_value_wrong_id_example :
    (j : ℕ) × (q : QueryCtrl) × (cam.query j ≡ some q)
    × (str_eq q.name "Contrast" ≡ true)
    × (◌≢◌ {A = ℕ} 1 j)
unfolding apply_value thousandths
apply_value_wrong_id_example =
    apply_value_wrong_id thousandths cam.query cam.base cam.count "Contrast" (pos 0) (pos 4096)
      (pos 2048) (record { id = 1; value = some (pos 47) }) 1 (omega arith) refl
