-- ===== src/Delivery/Queued.antt =====
-- A message that is built enters the output queue behind the others.
use macsad.Prelude.{ℕ, ◌<◌, ◌≡◌, refl, ◌∙◌, Option, none, some, List, [], ◌∷◌, ◌++◌, length, lt→ltb}
use macsad.Memory.{Mem, Cmd}
use macsad.Memory.Copy.{copy}
use macsad.Handlers.{CtrlMsg}
use macsad.Controller.{MsgBuf, Controller, Garbage, send_p4_msg, send_built}
use macsad.Fifo.Queue
use macsad.Fifo.Refine.{IsValid, contents, fifo_add_msg-refines}
use macsad.View.{View}
use macsad.Delivery.{received}

-- There is room for one more message.
pub record HasRoom (ct : Controller) : Type 0 where
  pub valid : IsValid ct.output_queue
  pub room : length (contents ct.output_queue) < 1024

-- The outcome of a call on the controller `ct`: it succeeds, one message is behind those that were
-- queued, and the switch decodes it as `v`.
abbrev pub Delivers : (ℕ → ℕ) → Mem → CtrlMsg → Controller → Option Controller → View → Type 0
Delivers key_bytes cell c ct result v =
    (ct' : Controller) × (msg : MsgBuf) × (result ≡ some ct')
    × (contents ct'.output_queue ≡ contents ct.output_queue ++ (msg ∷ []))
    × (received key_bytes cell c msg ≡ some v)

-- What the built buffer becomes in the queue.
unfoldable pub queued : Mem → Mem → MsgBuf
unfolding copy
queued heap buffer = record { data_bytes = copy heap 0 buffer 0 2048; length = 2048 }

unfoldable pub received_built :
    (ℕ → ℕ) → Mem → CtrlMsg → Mem → Option (Unit {0} × Mem) → Option View
unfolding received queued
received_built key_bytes cell c heap none = none
received_built key_bytes cell c heap (some (_, buffer)) =
    received key_bytes cell c (queued heap buffer)

pub add-room :
    {A : Type 0} (xs : List A) (x : A) → length xs < 1024 → Queue.add xs x ≡ xs ++ (x ∷ [])
unfolding Queue.add
add-room xs x h = rw (lt→ltb _ _ h)

module _ (key_bytes : ℕ → ℕ) (g : Garbage) (cell : Mem) (c : CtrlMsg) (v : View) where
  Delivers-built :
      {ct : Controller} (built : Option (Unit {0} × Mem)) (build : Cmd (Unit {0}))
      → build g.stack ≡ built
      → received_built key_bytes cell c g.heap built ≡ some v
      → HasRoom ct
      → Delivers key_bytes cell c ct (send_built build g ct) v
  unfolding received_built send_built send_p4_msg queued
  Delivers-built none build b r h = cc r
  Delivers-built {ct} (some (u, buffer)) build b r h =
      let msg = queued g.heap buffer in
      (
        send_p4_msg ct buffer 2048 g.heap,
        msg,
        rw (b, send_built),
        fifo_add_msg-refines msg h.valid ∙ add-room (contents ct.output_queue) msg h.room,
        r,
      )

  -- A function that builds a message on its stack and sends it delivers what the switch decodes
  -- from the built buffer.
  pub Delivers-send_built :
      {ct : Controller} (build : Cmd (Unit {0}))
      → received_built key_bytes cell c g.heap (build g.stack) ≡ some v
      → HasRoom ct
      → Delivers key_bytes cell c ct (send_built build g ct) v
  Delivers-send_built build r h = Delivers-built (build g.stack) build refl r h
