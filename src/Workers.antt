-- ===== src/Workers.antt =====
-- odp_lib.c: which interfaces a worker receives from and sends to, and on which queues. The result
-- `none` of `macs_set_worker_afinity` is an access out of the bounds of an array.
pub mod Slots
pub mod Shares
pub mod Staff
pub mod Assigned
use macsad.Prelude.{
  ℕ, zero, suc, ◌+◌, ◌%◌, ◌^◌, Bool, true, false, ltb, leb, ◌==◌, ◌&&◌, Option, none, some,
  ◌and_then◌, if◌then◌else◌,
}

-- The part of `macs_conf_t` that is set here: by slot, the interface to receive from and its queue,
-- and by interface whether it was set up for sending and the queue.
pub record MacsConf : Type 0 where
  pub num_rx_pktio : ℕ
  pub num_tx_pktio : ℕ
  pub rx_idx : ℕ → ℕ
  pub rqueue_idx : ℕ → ℕ
  pub tx_idx : ℕ → ℕ
  pub tqueue_idx : ℕ → ℕ

-- The fields of an interface in `mac_global_t`.
pub record Pktio : Type 0 where
  pub num_rx_thr : ℕ
  pub num_tx_thr : ℕ
  pub num_rx_queue : ℕ
  pub num_tx_queue : ℕ
  pub next_rx_queue : ℕ
  pub next_tx_queue : ℕ

pub record MacGlobal : Type 0 where
  pub mconf : ℕ → MacsConf
  pub pktios : ℕ → Pktio

abbrev pub uint8 : ℕ → ℕ
uint8 n = n % 2 ^ 8

abbrev pub uint16 : ℕ → ℕ
uint16 n = n % 2 ^ 16

-- An assignment to an element.
abbrev pub at {ℓ} : {A : Type ℓ} → (ℕ → A) → ℕ → A → ℕ → A
at f i v j = if j == i then v else f j

-- MAC_MAX_LCORE, the length of `mconf`, and MAX_PKTIOS, that of `pktios`, `rx_pktios` and `tx_pktios`
abbrev pub mac_max_lcore : ℕ
mac_max_lcore = 32

abbrev pub max_pktios : ℕ
max_pktios = 8

abbrev pub set_rx : MacGlobal → ℕ → ℕ → MacGlobal
set_rx g mconf_id rx_idx =
    let mconf = g.mconf mconf_id in
    let pktio = g.pktios rx_idx in
    record {
      mconf = at g.mconf mconf_id (record mconf {
        rx_idx = at mconf.rx_idx mconf.num_rx_pktio (uint8 rx_idx);
        num_rx_pktio = uint8 (mconf.num_rx_pktio + 1);
      });
      pktios = at g.pktios rx_idx (record pktio { num_rx_thr = uint16 (pktio.num_rx_thr + 1) });
    }

-- The worker gets the interface in its next slot.
unfoldable pub receive_from : MacGlobal → ℕ → ℕ → Option MacGlobal
receive_from g mconf_id rx_idx =
    if ltb mconf_id mac_max_lcore
      && (ltb (g.mconf mconf_id).num_rx_pktio max_pktios && ltb rx_idx max_pktios)
    then some (set_rx g mconf_id rx_idx)
    else none

abbrev pub set_tx : MacGlobal → ℕ → ℕ → MacGlobal
set_tx g mconf_id tx_idx =
    let mconf = g.mconf mconf_id in
    let pktio = g.pktios tx_idx in
    record {
      mconf = at g.mconf mconf_id (record mconf {
        tx_idx = at mconf.tx_idx tx_idx (uint8 tx_idx);
        num_tx_pktio = uint8 (mconf.num_tx_pktio + 1);
      });
      pktios = at g.pktios tx_idx (record pktio { num_tx_thr = uint16 (pktio.num_tx_thr + 1) });
    }

unfoldable pub send_to : MacGlobal → ℕ → ℕ → Option MacGlobal
send_to g mconf_id tx_idx =
    if ltb mconf_id mac_max_lcore && ltb tx_idx max_pktios
    then some (set_tx g mconf_id tx_idx)
    else none

-- With more interfaces than workers: the loop over the interfaces, of which `n` are left.
unfoldable pub share_interfaces : ℕ → MacGlobal → ℕ → ℕ → ℕ → Option MacGlobal
unfolding receive_from
share_interfaces num_workers g mconf_id rx_idx zero = some g
share_interfaces num_workers g mconf_id rx_idx (suc n) =
    receive_from g mconf_id rx_idx and_then (λ g'.
      share_interfaces num_workers g' (if leb num_workers (mconf_id + 1) then 0 else mconf_id + 1)
        (rx_idx + 1) n)

-- The loop over the interfaces to send to, but for the one that is received from.
unfoldable pub send_to_others : MacGlobal → ℕ → ℕ → ℕ → ℕ → Option MacGlobal
unfolding send_to
send_to_others g mconf_id rx_idx tx_idx zero = some g
send_to_others g mconf_id rx_idx tx_idx (suc n) =
    (if tx_idx == rx_idx then some g else send_to g mconf_id tx_idx)
    and_then (λ g'. send_to_others g' mconf_id rx_idx (tx_idx + 1) n)

-- Otherwise: the loop over the workers. The slot is read before the interfaces to send to are set up,
-- which do not change it.
unfoldable pub share_workers : ℕ → MacGlobal → ℕ → ℕ → ℕ → Option MacGlobal
unfolding send_to_others receive_from
share_workers if_count g mconf_id rx_idx zero = some g
share_workers if_count g mconf_id rx_idx (suc n) =
    send_to_others g mconf_id rx_idx 0 if_count
    and_then (λ g'. receive_from g' mconf_id rx_idx)
    and_then (λ g'.
        share_workers if_count g' (mconf_id + 1)
          (if leb if_count (rx_idx + 1) then 0 else rx_idx + 1) n)

unfoldable pub macs_set_worker_afinity : ℕ → ℕ → MacGlobal → Option MacGlobal
unfolding share_interfaces share_workers
macs_set_worker_afinity if_count num_workers g =
    if ltb num_workers if_count
    then share_interfaces num_workers g 0 0 if_count
    else share_workers if_count g 0 0 num_workers

-- A queue of an interface, and the one behind it.
abbrev pub next_queue : ℕ → ℕ → ℕ
next_queue queue num = if leb num (queue + 1) then 0 else queue + 1

-- The loop of `macs_set_queue_afinity` over the slots of a worker, of which `n` are left. The handles
-- of the queues are those of the indices, which are kept here.
unfoldable pub bind_rx : MacGlobal → ℕ → ℕ → ℕ → MacGlobal
bind_rx g mconf_id slot zero = g
bind_rx g mconf_id slot (suc n) =
    let mconf = g.mconf mconf_id in
    let rx_idx = mconf.rx_idx slot in
    let pktio = g.pktios rx_idx in
    let rx_queue = pktio.next_rx_queue in
    bind_rx
      (record {
        mconf =
            at g.mconf mconf_id
              (record mconf { rqueue_idx = at mconf.rqueue_idx slot (uint8 rx_queue) });
        pktios =
            at g.pktios rx_idx
              (record pktio { next_rx_queue = next_queue rx_queue pktio.num_rx_queue });
      })
      mconf_id (slot + 1) n

unfoldable pub bind_tx : MacGlobal → ℕ → ℕ → ℕ → MacGlobal
bind_tx g mconf_id pktio_id zero = g
bind_tx g mconf_id pktio_id (suc n) =
    let mconf = g.mconf mconf_id in
    let pktio = g.pktios pktio_id in
    let tx_queue = pktio.next_tx_queue in
    bind_tx
      (record {
        mconf =
            at g.mconf mconf_id
              (record mconf { tqueue_idx = at mconf.tqueue_idx pktio_id (uint8 tx_queue) });
        pktios =
            at g.pktios pktio_id
              (record pktio { next_tx_queue = next_queue tx_queue pktio.num_tx_queue });
      })
      mconf_id (pktio_id + 1) n

-- The loop over the workers, of which `n` are left.
unfoldable pub bind_queues : ℕ → MacGlobal → ℕ → ℕ → MacGlobal
unfolding bind_rx bind_tx
bind_queues if_count g mconf_id zero = g
bind_queues if_count g mconf_id (suc n) =
    bind_queues if_count
      (bind_tx (bind_rx g mconf_id 0 (g.mconf mconf_id).num_rx_pktio) mconf_id 0 if_count)
      (mconf_id + 1) n

unfoldable pub macs_set_queue_afinity : ℕ → ℕ → MacGlobal → MacGlobal
unfolding bind_queues
macs_set_queue_afinity if_count num_workers g = bind_queues if_count g 0 num_workers
