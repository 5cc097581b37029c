-- ===== src/Forward.antt =====
-- main_odp.c: a worker receives bursts of packets from its ports, and sends them in bursts to the
-- ports that the generated program chooses. `P` stands for the packet handles. `none` is the fault of
-- an access out of the bounds of an array.
pub mod Burst
pub mod Packet
pub mod Round
pub mod Flush
pub mod Receive
pub mod Returned
use macsad.Prelude.{
  ℕ, zero, suc, ◌+◌, ◌-◌, ◌%◌, ◌^◌, Bool, true, false, Option, none, some, List, [], ◌∷◌, ◌++◌, ltb,
  ◌==◌, ◌||◌, if◌then◌else◌, ◌and_then◌,
}
use macsad.Prelude.Int.{ℤ, pos, negsuc, pos_part}

-- MAX_PKT_BURST and MAX_PKTIOS
abbrev pub max_pkt_burst : ℕ
max_pkt_burst = 32

abbrev pub max_pktios : ℕ
max_pktios = 8

-- The calls that leave the code: what the k-th call of `odp_packet_copy` returns for a packet and of
-- `odp_pktout_send` for a number of packets, and the egress port that `handle_packet` of the
-- generated program leaves in the metadata of a packet from a port.
pub record Odp (P : Type 0) : Type 0 where
  pub odp_packet_copy : ℕ → P → Option P
  pub odp_pktout_send : ℕ → ℕ → ℤ
  pub handle_packet : ℕ → P → ℕ

-- `pkt_buf_t`
pub record PktBuf (P : Type 0) : Type 0 where
  pub pkt : ℕ → P
  pub len : ℕ

-- The part of `macs_conf_t` that a worker writes, its buffers by port, with the calls made so far and
-- what they were given: the bursts sent, with their port, and the packets freed.
pub record Worker (P : Type 0) : Type 0 where
  pub tx_pktios : ℕ → PktBuf P
  pub copies : ℕ
  pub sends : ℕ
  pub sent : List (ℕ × List P)
  pub freed : List P

-- The result of `odp_pktout_send` in a `uint16_t`, of which `sent < 0` is never true.
abbrev pub uint16 : ℤ → ℕ
uint16 (pos a) = a % 2 ^ 16
uint16 (negsuc a) = (2 ^ 16 - 1) - a % 2 ^ 16

module _ {P : Type 0} where
  abbrev pub set_buf : (ℕ → PktBuf P) → ℕ → PktBuf P → ℕ → PktBuf P
  set_buf bufs port b q = if q == port then b else bufs q

  -- `buf->pkt[buf->len] = packet; buf->len++` on the buffer of a port
  unfoldable pub put : Worker P → ℕ → P → Option (Worker P)
  put w port packet =
      let buf = w.tx_pktios port in
      let pkt : ℕ → P = λ i. if i == buf.len then packet else buf.pkt i in
      if ltb port max_pktios
      then if ltb buf.len max_pkt_burst
        then some (record w {
          tx_pktios = set_buf w.tx_pktios port (record { pkt = pkt; len = buf.len + 1 });
        })
        else none
      else none

  -- The `n` packets of a buffer from `i` on.
  abbrev pub packets : (ℕ → P) → ℕ → ℕ → List P
  packets pkt i zero = []
  packets pkt i (suc n) = pkt i ∷ packets pkt (i + 1) n

  -- The packets that were not sent are freed, a fault if they are not in the array.
  unfoldable pub drop_rest : Worker P → PktBuf P → ℕ → ℕ → Option (Worker P)
  drop_rest w buf sent drops =
      if drops == 0
      then some w
      else if ltb max_pkt_burst (sent + drops)
      then none
      else some (record w { freed = w.freed ++ packets buf.pkt sent drops })

  module _ (odp : Odp P) where
    unfoldable pub maco_send_burst : Worker P → ℕ → ℕ → Option (Worker P)
    unfolding drop_rest
    maco_send_burst w n port =
        let buf = w.tx_pktios port in
        let answer = odp.odp_pktout_send w.sends n in
        let sent = uint16 answer in
        let drops = (n + (2 ^ 16 - sent)) % 2 ^ 16 in
        drop_rest
          (record w {
            sends = w.sends + 1;
            sent = w.sent ++ (port, packets buf.pkt 0 (pos_part answer)) ∷ [];
          })
          buf sent drops

    -- The loop of `maco_bcast_packet`, with `n` ports left; `tmp` is the copy for the first of them,
    -- while `first`.
    unfoldable pub bcast_loop : Worker P → P → P → ℕ → Bool → ℕ → ℕ → Option (Worker P)
    unfolding put
    bcast_loop w pkt tmp ingress first port zero = some w
    bcast_loop w pkt tmp ingress first port (suc n) =
        let made = record w { copies = w.copies + 1 } in
        let skipped = bcast_loop w pkt tmp ingress first (port + 1) n in
        if port == ingress
        then skipped
        else if first
        then put w port tmp and_then (λ w'. bcast_loop w' pkt tmp ingress false (port + 1) n)
        else elim (odp.odp_packet_copy w.copies pkt) [
          | none ↦ bcast_loop made pkt tmp ingress false (port + 1) n
          | some pkt_cp ↦
              put made port pkt_cp and_then (λ w'. bcast_loop w' pkt tmp ingress false (port + 1) n)
        ]

    -- `if_count` is the number of ports; `ingress_port` is a `uint8_t`.
    unfoldable pub maco_bcast_packet : Worker P → ℕ → P → ℕ → Option (Worker P)
    unfolding bcast_loop
    maco_bcast_packet w if_count pkt inport =
        let made = record w { copies = w.copies + 1 } in
        elim (odp.odp_packet_copy w.copies pkt) [
          | none ↦ some made
          | some tmp ↦
              bcast_loop made pkt tmp (inport % 2 ^ 8) true 0 if_count
              and_then (λ w'. some (record w' { freed = w'.freed ++ pkt ∷ [] }))
        ]

    -- `port` is what `packet_received`, which runs the generated program, has left in the metadata;
    -- the input index of a packet is the port that it came from.
    unfoldable pub send_packet : Worker P → ℕ → P → ℕ → ℕ → Option (Worker P)
    unfolding maco_bcast_packet put
    send_packet w if_count pkt inport port =
        if port == 100 then maco_bcast_packet w if_count pkt inport else put w port pkt

    unfoldable pub receive_all : Worker P → ℕ → ℕ → List P → Option (Worker P)
    unfolding send_packet
    receive_all w if_count port_in [] = some w
    receive_all w if_count port_in (pkt ∷ pkts) =
        send_packet w if_count pkt port_in (odp.handle_packet port_in pkt)
        and_then (λ w'. receive_all w' if_count port_in pkts)

    -- The loop over the ports from `portid` on, of which `n` are left.
    unfoldable pub flush : Worker P → ℕ → ℕ → ℕ → Option (Worker P)
    unfolding maco_send_burst
    flush w port_in portid zero = some w
    flush w port_in portid (suc n) =
        let len = (w.tx_pktios portid).len in
        let skipped = flush w port_in (portid + 1) n in
        if (portid == port_in) || (len == 0)
        then skipped
        else maco_send_burst w len portid and_then (λ w'.
          let emptied = record (w'.tx_pktios portid) { len = 0 } in
          flush (record w' { tx_pktios = set_buf w'.tx_pktios portid emptied }) port_in (portid + 1)
            n)

    -- A round of `odpc_worker_mode_direct` in which the packets came from `port_in`.
    unfoldable pub worker_round : Worker P → ℕ → ℕ → List P → Option (Worker P)
    unfolding receive_all flush
    worker_round w if_count port_in pkts =
        receive_all w if_count port_in pkts and_then (λ w'. flush w' port_in 0 if_count)

-- `odpc_worker_mode_direct` until `exit_threads`: what each call of `odp_pktin_recv_tmo` brought,
-- from the ports that the worker receives from, in turn.
module _ {P : Type 0} (odp : Odp P) (if_count num_pktio : ℕ) (rx_idx : ℕ → ℕ) where
  unfoldable pub odpc_worker_mode_direct : Worker P → ℕ → List (List P) → Option (Worker P)
  unfolding worker_round
  odpc_worker_mode_direct w idx [] = some w
  odpc_worker_mode_direct w idx ([] ∷ bursts) =
      odpc_worker_mode_direct w (if (idx + 1) == num_pktio then 0 else idx + 1) bursts
  odpc_worker_mode_direct w idx ((pkt ∷ pkts) ∷ bursts) =
      worker_round odp w if_count (rx_idx idx) (pkt ∷ pkts) and_then (λ w'.
        odpc_worker_mode_direct w' (if (idx + 1) == num_pktio then 0 else idx + 1) bursts)
