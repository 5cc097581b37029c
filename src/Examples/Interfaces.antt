-- ===== src/Examples/Interfaces.antt =====
-- Five interfaces, shared out between two workers.
use macsad.Prelude.{refl, arith, Ends}
use macsad.Workers.{MacGlobal, macs_set_worker_afinity}
use macsad.Workers.Assigned.{IsAssigned, macs_set_worker_afinity-IsAssigned}

-- `gconf` as `gconf_init` leaves it.
abbrev cleared : MacGlobal
cleared = record {
  mconf = λ m. record {
    num_rx_pktio = 0;
    num_tx_pktio = 0;
    rx_idx = λ s. 0;
    rqueue_idx = λ s. 0;
    tx_idx = λ s. 0;
    tqueue_idx = λ s. 0;
  };
  pktios = λ p. record {
    num_rx_thr = 0;
    num_tx_thr = 0;
    num_rx_queue = 1;
    num_tx_queue = 1;
    next_rx_queue = 0;
    next_tx_queue = 0;
  };
}

macs_set_worker_afinity-IsAssigned_example :
    Ends (macs_set_worker_afinity 5 2 cleared) (IsAssigned 5 2)
macs_set_worker_afinity-IsAssigned_example =
    macs_set_worker_afinity-IsAssigned 5 2 cleared (omega arith) (omega arith) (omega arith)
      (omega arith) (λ m. refl)
