-- ===== src/Messages/Destroy.antt =====
-- The loops of `DestroyMessageQueue` in kernel/source/messaging/messageQueue.c.
use star_struck.Base.{
  ℕ, zero, suc, ◌%◌, ◌<◌, ◌≡◌, ◌≢◌, refl, ◌∙◌, ap, true, false, ◌==◌, ==_refl, ltb, pos, List,
  arith, hang, ok,
}
use star_struck.Threads.State.{Kernel, null, starting_state, scheduler_queue, send_queue, next}
use star_struck.Threads.Switch.{IsScheduled, IsTop}
use star_struck.Threads.UnblockStart.{unblock_knot}
use star_struck.Threads.Schedule.{unblock_thread}
use star_struck.Threads.Syscalls.{ipc_eintr}
use star_struck.Messages.State.{System, Resume, max_message_queues}
use star_struck.Messages.Handlers.{
  Continued, running, waiting, continue_from, drain, destroy_message_queue, owned_by_caller,
}
use star_struck.Messages.Returns.{IsRunning}

drain_step :
    (fuel queue : ℕ) (later : List Resume) (s : System) (g : Kernel)
    → (s.kernel.links queue == null) ≡ false
    → unblock_thread queue ipc_eintr s.kernel ≡ ok g
    → (g.current == s.kernel.current) ≡ true
    → drain (suc fuel) queue later s ≡ drain fuel queue later (record s { kernel = g })
drain_step fuel queue later s g linked runs same =
    let s1 = record s { kernel = g } in
    let here : continue_from s.kernel.current later s1 ≡ running later s1 = rw same refl in
    unfold drain in
    rw (linked, runs)
      (ap
        (λ (c : Continued). elim c [
          | running rest s2 ↦ drain fuel queue rest s2
          | waiting s2 ↦ ok (waiting s2)
        ])
        here)

drain-knot :
    (fuel queue : ℕ) (later : List Resume) (s : System) (rs : List ℕ)
    → queue % 2 ≡ 1
    → queue ≢ scheduler_queue
    → s.kernel.links queue ≡ starting_state
    → next s.kernel starting_state ≡ starting_state
    → IsScheduled s.kernel rs
    → IsTop s.kernel
    → drain fuel queue later s ≡ hang
drain-knot zero queue later s rs q other e knot scheduled top = unfold drain in refl
drain-knot (suc fuel) queue later s rs q other e knot scheduled top =
    let (g, runs, scheduled', top', current, links, tied) =
      unblock_knot s.kernel queue rs ipc_eintr q other e knot scheduled top in
    let same : (g.current == s.kernel.current) ≡ true = rw current (==_refl (s.kernel.current)) in
    drain_step fuel queue later s g (rw e refl) runs same
    ∙ drain-knot fuel queue later (record s { kernel = g }) rs q other links tied scheduled' top'

-- Where the send queue of a message queue of the caller's process leads to the starting state, which
-- is linked to itself, in a kernel whose scheduler is in order, `DestroyMessageQueue` does not end:
-- it is still running after any number of rounds.
pub destroy_message_queue-knot :
    (fuel : ℕ) (s : System) (m : ℕ) (rs : List ℕ) (later : List Resume)
    → m < max_message_queues
    → owned_by_caller m s ≡ true
    → s.kernel.links (send_queue m) ≡ starting_state
    → next s.kernel starting_state ≡ starting_state
    → IsRunning s.kernel rs
    → destroy_message_queue fuel (pos m) later s ≡ hang
unfolding destroy_message_queue
destroy_message_queue-knot fuel s m rs later known own e knot run =
    let in_range : ltb max_message_queues m ≡ false = ground arith in
    let inside : (m == max_message_queues) ≡ false = ground arith in
    let stuck =
      drain-knot fuel (send_queue m) later s rs (omega arith) (omega arith) e knot run.scheduled
        run.top in
    rw (in_range, inside, own, stuck) refl
