-- ===== src/Examples/Queue.antt =====
-- The queue of proj1/multithreadgetfile/steque.c with two nodes.
use cs8803_introduction_to_o.Common.{◌≡◌, refl, none, some, [], ◌∷◌, arith, ok}
use cs8803_introduction_to_o.Steque.{node, Steque, update, enqueue, pop, cycle}
use cs8803_introduction_to_o.Steque.Cells.{IsSteque}
use cs8803_introduction_to_o.Steque.Queue.{enqueue-IsSteque, pop-IsSteque}
use cs8803_introduction_to_o.Steque.Rotate.{cycle-rotate}
use cs8803_introduction_to_o.Proxy.Stopping.{proxy_sig_handler, proxy_sig_handler-unlinks_all}

abbrev two : Steque
two = record {
  nodes = update (update (λ a. none) 1 (some (node 7 2))) 2 (some (node 8 0));
  front = 1;
  back = 2;
  size = 2;
}

two-IsSteque : IsSteque two ((1, 7) ∷ (2, 8) ∷ [])
two-IsSteque = record {
  linked = (ground arith, refl, refl, (ground arith, refl, refl, tt));
  at_front = refl;
  at_back = refl;
  counted = refl;
}

enqueue-IsSteque_example :
    (s' : Steque) × (enqueue 3 two 9 ≡ ok s') × IsSteque s' ((1, 7) ∷ (2, 8) ∷ (3, 9) ∷ [])
enqueue-IsSteque_example =
    enqueue-IsSteque 3 9 (ground arith) refl ((1, 7) ∷ (2, 8) ∷ []) two-IsSteque (omega arith)

pop-IsSteque_example :
    (s' : Steque) × (pop two ≡ ok (7, s')) × IsSteque s' ((2, 8) ∷ []) × (s'.nodes 1 ≡ none)
pop-IsSteque_example = pop-IsSteque 1 7 ((2, 8) ∷ []) two-IsSteque (omega arith)

cycle-rotate_example : (s' : Steque) × (cycle two ≡ ok s') × IsSteque s' ((2, 8) ∷ (1, 7) ∷ [])
cycle-rotate_example = cycle-rotate ((1, 7) ∷ (2, 8) ∷ []) two-IsSteque

-- SIGTERM, with both segments free.
proxy_sig_handler-unlinks_all_example :
    proxy_sig_handler 1 15 two ≡ ok (some (record { unlinked = 7 ∷ 8 ∷ []; status = 15 }))
proxy_sig_handler-unlinks_all_example =
    proxy_sig_handler-unlinks_all 1 15 ((1, 7) ∷ (2, 8) ∷ []) two-IsSteque (omega arith)
      (omega arith)
