-- ===== src/Backend/Learned.antt =====
-- A digest of a learned MAC address, from the switch to the controller of mac_controller.c: the
-- calls that the switch's generated code makes for it, over the socket, to `dhf`.
use macsad.Prelude.{
  ℕ, ◌≡◌, ◌<◌, refl, ap, ◌∙◌, true, Option, none, some, List, [], ◌∷◌, ◌++◌, length,
}
use macsad.Prelude.Int.{ℤ}
use macsad.Memory.{
  Mem, Cmd, codes, ◌>>=◌, nonnull, load16, put16, put32, load32, write, write_bytes,
}
use macsad.Memory.Copy.{copy}
use macsad.Messages.Netconv.{netconv_p4_header}
use macsad.Sockets.Transfer.{msg_length}
use macsad.Controller.{Controller, Garbage, send_all}
use macsad.Apps.L2.{fill_dmac_table, fill_smac_table}
use macsad.Apps.L2.Learn.{dhf}
use macsad.Delivery.Queued.{add-room}
use macsad.Fifo.Refine.{IsValid, contents, fifo_add_msg-refines}
use macsad.Backend.Cells.{
  Holds, with_data, with_data-Holds, take_cell-Holds, create_digest_lem, add_digest_field_lem,
  send_digest_lem, sent,
}
use macsad.Backend.{
  take_cell, generate_digest, add_fields, send_made, Backend, Digest, fill_digest,
  fill_digest_field,
}

-- The memory that a command leaves; a fault does not occur where it is used.
abbrev after {ℓ} : {A : Type ℓ} → Cmd A → Mem → Mem
after c m = elim (c m) [ none ↦ m | some (_, m') ↦ m' ]

abbrev digest_name : List ℕ
digest_name = codes "mac_learn_digest"

module _ (m0 m1 m2 m3 m4 m5 p0 p1 : ℕ) (m : Mem) where
  abbrev pub mac : List ℕ
  mac = m0 ∷ m1 ∷ m2 ∷ m3 ∷ m4 ∷ m5 ∷ []

  abbrev port : List ℕ
  port = p0 ∷ p1 ∷ []

  -- The data of the cell behind each call.
  abbrev begun : Mem
  begun = after (fill_digest 2048 digest_name) m

  abbrev with_mac : Mem
  with_mac = after (fill_digest_field (some 0) 2048 mac 48) begun

  abbrev with_port : Mem
  with_port = after (fill_digest_field (some 0) 2048 port 9) with_mac

  abbrev finished : Mem
  finished = after (netconv_p4_header 0) with_port

  begun_lem : fill_digest 2048 digest_name m ≡ some (some (some 0), begun)
  unfolding fill_digest
  begun_lem = refl

  with_mac_lem : fill_digest_field (some 0) 2048 mac 48 begun ≡ some (true, with_mac)
  unfolding fill_digest fill_digest_field load16 put16 write write_bytes put32
  with_mac_lem = refl

  with_port_lem : fill_digest_field (some 0) 2048 port 9 with_mac ≡ some (true, with_port)
  unfolding fill_digest fill_digest_field load16 put16 write write_bytes put32
  with_port_lem = refl

  finished_lem : (nonnull (some 0) >>= netconv_p4_header) with_port ≡ some (0, finished)
  unfolding netconv_p4_header
  finished_lem = refl

  finished-dhf :
      (old : Mem) (g : ℕ → Garbage) (ct : Controller)
      → dhf 0 (copy old 0 finished 0 (msg_length finished)) g ct
        ≡ send_all (fill_dmac_table p0 mac ∷ fill_smac_table p0 mac ∷ []) g ct
  unfolding fill_digest fill_digest_field dhf copy msg_length write write_bytes load16 load32 put16
      put32 netconv_p4_header
  finished-dhf old g ct = refl

-- A call that puts cell `x` behind the queued ones, such that the controller's `dhf` behaves as `act`
-- on what it receives of the cell's data in a buffer that held `old`.
abbrev pub Reports :
    ℕ → Backend → Option Backend → (Mem → Option Controller) → Option Controller → Type 0
Reports x bg result handled act =
    (bg' : Backend) × (result ≡ some bg')
    × (contents bg'.output_queue ≡ contents bg.output_queue ++ (x ∷ []))
    × (handled (bg'.cells x).data_bytes ≡ act)

module _ (m0 m1 m2 m3 m4 m5 p0 p1 : ℕ) (bg : Backend) (x : ℕ) (head : bg.unused_head ≡ some x)
    (sized : (bg.cells x).size ≡ 2048) (valid : IsValid bg.output_queue)
    (room : length (contents bg.output_queue) < 1024) where
  abbrev m : Mem
  m = (bg.cells x).data_bytes

  abbrev key : List ℕ
  key = mac m0 m1 m2 m3 m4 m5 p0 p1 m

  held : Holds x m bg
  held = record { data_held = refl; size_held = sized }

  abbrev bg1 : Backend
  bg1 = with_data x (begun m0 m1 m2 m3 m4 m5 p0 p1 m) (take_cell bg x)

  abbrev bg2 : Backend
  bg2 = with_data x (with_mac m0 m1 m2 m3 m4 m5 p0 p1 m) bg1

  abbrev bg3 : Backend
  bg3 = with_data x (with_port m0 m1 m2 m3 m4 m5 p0 p1 m) bg2

  held1 : Holds x (begun m0 m1 m2 m3 m4 m5 p0 p1 m) bg1
  held1 = with_data-Holds x m _ (take_cell bg x) (take_cell-Holds bg x head m held)

  held2 : Holds x (with_mac m0 m1 m2 m3 m4 m5 p0 p1 m) bg2
  held2 = with_data-Holds x _ _ bg1 held1

  held3 : Holds x (with_port m0 m1 m2 m3 m4 m5 p0 p1 m) bg3
  held3 = with_data-Holds x _ _ bg2 held2

  abbrev made : Digest
  made = record { mem_cell = x; digest = some 0 }

  abbrev fields : List (List ℕ × ℕ)
  fields = (key, 48) ∷ (p0 ∷ p1 ∷ [], 9) ∷ []

  abbrev reported : Backend
  reported = sent bg3 x _ (finished m0 m1 m2 m3 m4 m5 p0 p1 m) held3

  add_fields-runs : add_fields fields (some made, bg1) ≡ some (some made, bg3)
  unfolding add_fields
  add_fields-runs =
      ap (next ((p0 ∷ p1 ∷ [], 9) ∷ [])) (
        add_digest_field_lem bg1 x _ _ held1 (some 0) key 48
          (with_mac_lem m0 m1 m2 m3 m4 m5 p0 p1 m))
      ∙ ap (next []) (
          add_digest_field_lem bg2 x _ _ held2 (some 0) (p0 ∷ p1 ∷ []) 9
            (with_port_lem m0 m1 m2 m3 m4 m5 p0 p1 m))
    where
      next : List (List ℕ × ℕ) → Option (Option Digest × Backend) → Option (Option Digest × Backend)
      next rest none = none
      next rest (some (d, bg')) = add_fields rest (d, bg')

  send_made-runs : send_made (some made, bg3) ≡ some reported
  unfolding send_made
  send_made-runs =
      ap next (send_digest_lem bg3 x _ _ held3 (some 0) 0 (finished_lem m0 m1 m2 m3 m4 m5 p0 p1 m))
    where
      next : Option (ℤ × Backend) → Option Backend
      next none = none
      next (some (rval, bg')) = some bg'

  generate_digest-runs : generate_digest true digest_name fields bg ≡ some reported
  unfolding generate_digest
  generate_digest-runs =
      ap fill (
        create_digest_lem bg x head m held digest_name _ (some 0)
          (begun_lem m0 m1 m2 m3 m4 m5 p0 p1 m))
      ∙ ap send add_fields-runs
      ∙ send_made-runs
    where
      send : Option (Option Digest × Backend) → Option Backend
      send none = none
      send (some filled) = send_made filled

      fill : Option (Option Digest × Backend) → Option Backend
      fill none = none
      fill (some begun') = send (add_fields fields begun')

  reported-data : (reported.cells x).data_bytes ≡ finished m0 m1 m2 m3 m4 m5 p0 p1 m
  reported-data = (with_data-Holds x _ _ bg3 held3).data_held

  -- For every MAC address and port: with an unused cell of 2048 bytes, whatever it held, and room
  -- in the output queue, `generate_digest` for "mac_learn_digest" with the address (48 bits) and
  -- the port (9 bits) succeeds and puts the cell behind those that were queued. Of the bytes of that
  -- cell that the sockets carry, `dhf` of mac_controller.c makes exactly the calls
  -- `fill_dmac_table` and `fill_smac_table` with that address and the first byte of the port.
  pub generate_digest-dhf :
      (old : Mem) (g : ℕ → Garbage) (ct : Controller)
      → Reports x bg
          (generate_digest true digest_name fields bg)
          (λ data_bytes. dhf 0 (copy old 0 data_bytes 0 (msg_length data_bytes)) g ct)
          (send_all (fill_dmac_table p0 key ∷ fill_smac_table p0 key ∷ []) g ct)
  unfolding with_data take_cell
  generate_digest-dhf old g ct = (
    reported,
    generate_digest-runs,
    fifo_add_msg-refines x valid ∙ add-room (contents bg.output_queue) x room,
    ap (λ d. dhf 0 (copy old 0 d 0 (msg_length d)) g ct) reported-data
        ∙ finished-dhf m0 m1 m2 m3 m4 m5 p0 p1 m old g ct,
  )
