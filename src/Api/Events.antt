-- ===== src/Api/Events.antt =====
-- glb_pollevent of src/libgilberta/gilberta.c: the events come out in the order they were put in.
use libgilberta.Base.{◌≡◌, refl, List, Option, subst, Bool-cases, inl, inr, ◌==◌}
use libgilberta.Status.{ErrorCode}
use libgilberta.Queue.Fifo
use libgilberta.Queue.Slots
use libgilberta.Queue.Slots.{Queue}
use libgilberta.Queue.Slots.Laws.{contents, IsValid, pop_refines, pop-IsValid}
use libgilberta.State.{Event}
use libgilberta.Effect.{St, ok, ◌>>=◌, ◌>>◌, get_ctx, put_ctx, pure}
use libgilberta.Api.{glb_pollevent}

-- A call that gives a status and an event, and changes nothing but the event queue, which is valid
-- afterwards and holds the given events.
pub record Polls {W : Type 0} (s : St W) (status : ErrorCode) (event : Option Event)
    (events : List Event) : Type 0 where
  pub queue : Queue Event
  pub returns :
      glb_pollevent s
      ≡ ok (status, event) (record s { ctx = record (s.ctx) { eventqueue = queue } })
  pub holds : contents queue ≡ events
  pub valid : IsValid queue

-- Both answers of glb_pollevent are those of the queue's pop.
popped :
    {W : Type 0} (s : St W)
    → let (status, event, queue) = Slots.pop s.ctx.eventqueue in
      glb_pollevent s
      ≡ ok (status, event) (record s { ctx = record (s.ctx) { eventqueue = queue } })
unfolding glb_pollevent Slots.size Slots.pop ◌>>=◌ ◌>>◌ get_ctx put_ctx pure
popped s = elim (Bool-cases (s.ctx.eventqueue.length == 0)) [
  | inl none_there ↦ rw none_there refl
  | inr some_there ↦ rw some_there refl
]

-- With a valid event queue, glb_pollevent returns the status and the event that the pop of a bounded
-- FIFO of the queue's events gives, the oldest or none, and leaves the FIFO's rest in the event queue
-- and all else of the context as it was.
pub glb_pollevent-Polls :
    {W : Type 0} (s : St W)
    → IsValid s.ctx.eventqueue
    → let (status, event, events) = Fifo.pop (contents s.ctx.eventqueue) in
      Polls s status event events
glb_pollevent-Polls s v =
    subst (λ (r : ErrorCode × Option Event × List Event). Polls s r.0 r.1 r.2)
      (pop_refines s.ctx.eventqueue v)
      (record {
        queue = (Slots.pop s.ctx.eventqueue).2;
        returns = popped s;
        holds = refl;
        valid = pop-IsValid s.ctx.eventqueue v;
      })
