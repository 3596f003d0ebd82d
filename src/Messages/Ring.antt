-- ===== src/Messages/Ring.antt =====
-- The ring operations of kernel/source/messaging/messageQueue.c against a sequence of messages.
use star_struck.Base.{
  ℕ, ◌+◌, ◌*◌, ◌%◌, ◌^◌, ◌≤◌, ◌<◌, ◌≡◌, ◌≢◌, ap, ap₂, ◌∙◌, List, [], ◌∷◌, ◌++◌, ==_refl, suc,
  update, add_u32, sub_u32, arith, true, sym,
}
use star_struck.Messages.State.{MessageQueue, System, slot}
use star_struck.Messages.Transfer.{
  has_space, has_message, tail_index, head_index, second_index, append_message, prepend_message,
  take_message, first_message,
}
use star_struck.Messages.Contents.{
  wrapped, address, window, contents, IsValid, window-snoc, window_frame, window-wrapped,
  window-cons, address-ne,
}

module _ (q : MessageQueue) (v : IsValid q) where
  tail_index-wrapped : tail_index q ≡ wrapped q.queue_size (q.first + q.used)
  tail_index-wrapped = ground arith

  second_index-wrapped : second_index q ≡ wrapped q.queue_size (q.first + 1)
  second_index-wrapped = ground arith

  head_index-lt :
      (head_index q < q.queue_size) × (wrapped q.queue_size (head_index q + 1) ≡ q.first)
  head_index-lt = ground arith

address-apart :
    (heap size h j : ℕ)
    → heap + 4 * size ≤ 2 ^ 32
    → h < size
    → suc j < size
    → address heap size (h + 1 + j) ≢ (heap + 4 * h) % 2 ^ 32
address-apart heap size h j fits hh hj = ground arith

-- The window of a valid queue behind a write at the tail, at the head, and without its first place.
module _ (q : MessageQueue) (v : IsValid q) (memory : ℕ → ℕ) where
  abbrev ring : (ℕ → ℕ) → ℕ → ℕ → List ℕ
  ring mem i n = window mem q.queue_heap q.queue_size i n

  window-tail :
      (message : ℕ)
      → has_space q ≡ true
      → ring (update memory (slot q (tail_index q)) message) q.first (add_u32 q.used 1)
        ≡ ring memory q.first q.used ++ (message ∷ [])
  window-tail message space =
      let place : slot q (tail_index q) ≡ address q.queue_heap q.queue_size (q.first + q.used) =
        ap (slot q) (tail_index-wrapped q v) in
      let count : add_u32 q.used 1 ≡ suc q.used = ground arith in
      rw (place, count)
        (window-snoc _ q.queue_heap q.queue_size q.first q.used
          ∙ ap₂ (λ l x. l ++ (x ∷ []))
              (window_frame memory q.queue_heap q.queue_size q.first q.used _ message (
                address-ne q.queue_heap q.queue_size q.first q.used v.mapped v.started
                  (ground arith)))
              (ground arith))

  window-head :
      (message : ℕ)
      → has_space q ≡ true
      → ring (update memory (slot q (head_index q)) message) (head_index q) (add_u32 q.used 1)
        ≡ message ∷ ring memory q.first q.used
  window-head message space =
      let h = head_index q in
      let heap = q.queue_heap in
      let size = q.queue_size in
      let count : add_u32 q.used 1 ≡ suc q.used = ground arith in
      let inside = head_index-lt q v in
      let place : address heap size h ≡ slot q h = ground arith in
      let after : ℕ → ℕ = update memory (slot q h) message in
      rw count (
        window-cons after heap size h q.used
        ∙ ap₂ ◌∷◌ (ground arith) (
            window_frame memory heap size (h + 1) q.used (slot q h) message
              (λ j lt. address-apart heap size h j v.mapped inside.0 (ground arith))
            ∙ sym (window-wrapped memory heap size (h + 1) q.used (omega arith) v.bounded)
            ∙ ap (λ i. ring memory i q.used) inside.1))

  window-second :
      has_message q ≡ true
      → ring memory q.first q.used
        ≡ memory (slot q q.first) ∷ ring memory (second_index q) (sub_u32 q.used 1)
  window-second left =
      let count : q.used ≡ suc (sub_u32 q.used 1) = ground arith in
      let place : address q.queue_heap q.queue_size q.first ≡ slot q q.first = ground arith in
      ap (ring memory q.first) count
      ∙ window-cons memory q.queue_heap q.queue_size q.first (sub_u32 q.used 1)
      ∙ ap₂ ◌∷◌ (ap memory place) (
          sym (
            window-wrapped memory q.queue_heap q.queue_size (q.first + 1) (sub_u32 q.used 1)
              (omega arith) (ground arith))
          ∙ ap (λ i. ring memory i (sub_u32 q.used 1)) (sym (second_index-wrapped q v)))

-- A message that is appended to a valid queue with a free place stands behind those before, and
-- the queue stays valid.
pub append_message-snoc :
    (s : System) (m message : ℕ)
    → IsValid (s.queues m)
    → has_space (s.queues m) ≡ true
    → (contents (append_message m message s) m ≡ contents s m ++ (message ∷ []))
      × IsValid ((append_message m message s).queues m)
unfolding append_message
append_message-snoc s m message v space =
    (rw (==_refl m) (window-tail (s.queues m) v s.memory message space), ground arith)

-- A message that is jammed into a valid queue with a free place stands before the others, and the
-- queue stays valid.
pub prepend_message-cons :
    (s : System) (m message : ℕ)
    → IsValid (s.queues m)
    → has_space (s.queues m) ≡ true
    → (contents (prepend_message m message s) m ≡ message ∷ contents s m)
      × IsValid ((prepend_message m message s).queues m)
unfolding prepend_message
prepend_message-cons s m message v space =
    (rw (==_refl m) (window-head (s.queues m) v s.memory message space), ground arith)

-- What is taken from a valid queue that holds a message is the first one, the rest stays in order,
-- and the queue stays valid.
pub take_message-cons :
    (s : System) (m : ℕ)
    → IsValid (s.queues m)
    → has_message (s.queues m) ≡ true
    → (contents s m ≡ first_message m s ∷ contents (take_message m s) m)
      × IsValid ((take_message m s).queues m)
unfolding take_message
take_message-cons s m v some_left =
    (rw (==_refl m) (window-second (s.queues m) v s.memory some_left), ground arith)
