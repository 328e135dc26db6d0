-- ===== src/Runtime.antt =====
-- flowcat-core/src/processor/runtime.rs, with `Envelope` and `Link` of processor/mod.rs: the loop that
-- the framework runs for each processor. A processor is a record of functions on its state; what the
-- loop sends is a list, in order. Observers only watch, and have no place here.
pub mod Drain
pub mod Lifecycle
pub mod Interrupt
pub mod Priority
pub mod Sends
mod Tests
use flowcat.Base.{
  ℕ, ◌+◌, Bool, true, false, not, ◌&&◌, List, [], ◌∷◌, ◌++◌, Option, none, some, if◌then◌else◌,
}
use flowcat.Base.Int.{ℤ}
use flowcat.Base.Text.{Text, Json}
use flowcat.Frame.{
  Direction, downstream, upstream, FrameClass, system, StartParams, Frame, start, cancel,
  interruption, error, end_of_task, stop, class, uninterruptible, is_terminal, name,
}

pub record FrameMeta : Type 0 where
  pub id : ℕ
  pub name : Text
  pub pts : Option ℤ
  pub broadcast_sibling_id : Option ℕ
  pub extra : Option Json
  pub transport_source : Option Text
  pub transport_destination : Option Text

-- `FrameMeta::new`, with the id that `next_frame_id` allocates.
abbrev pub new_meta : ℕ → Frame → FrameMeta
new_meta id frame = record {
  id = id;
  name = name frame;
  pts = none;
  broadcast_sibling_id = none;
  extra = none;
  transport_source = none;
  transport_destination = none;
}

pub record Envelope : Type 0 where
  pub meta : FrameMeta
  pub frame : Frame
  pub direction : Direction

pub data StopReason : Type 0 where
  ended stopped cancelled : StopReason

pub stop_reason : Frame → StopReason
stop_reason (end_of_task _) = ended
stop_reason stop = stopped
stop_reason (cancel _) = cancelled
stop_reason _ = stopped

-- The neighbours that a `Link` has, and the processor's name.
pub record Link : Type 0 where
  pub has_next : Bool
  pub has_prev : Bool
  pub name : Text

abbrev pub is_downstream : Direction → Bool
is_downstream downstream = true
is_downstream upstream = false

-- `Link::push`: with no neighbour in that direction the frame falls off the chain.
pub push : Link → Envelope → List Envelope
push link env =
    if (if is_downstream env.direction then link.has_next else link.has_prev) then env ∷ [] else []

pub push_all : Link → List Envelope → List Envelope
unfolding push
push_all link [] = []
push_all link (env ∷ envs) = push link env ++ push_all link envs

-- What `process_frame` does: the next state, what it pushes, and the error it returns, if any.
pub record Reply (S : Type 0) : Type 0 where
  pub state : S
  pub pushed : List Envelope
  pub next_id : ℕ
  pub failed : Option Text

-- `FrameProcessor`: the other hooks have no link, so they push nothing.
pub record Processor (S : Type 0) : Type 0 where
  pub on_start : S → StartParams → S × Option Text
  pub process_frame : S → Envelope → ℕ → Reply S
  pub on_interruption : S → S × Option Text
  pub on_stop : S → StopReason → S × Option Text

-- The queues of the two channels, which are closed once their senders are gone.
pub record Loop (S : Type 0) : Type 0 where
  pub system : List Envelope
  pub normal : List Envelope
  pub state : S
  pub next_id : ℕ
  pub sent : List Envelope
  pub running : Bool
  pub closed : Bool

-- `matches!(frame, Frame::Stop)`
pub is_stop : Frame → Bool
is_stop stop = true
is_stop _ = false

abbrev is_system : FrameClass → Bool
is_system system = true
is_system _ = false

-- `ProcessorTx::send`, while the receiver lives.
pub send : {S : Type 0} → Loop S → Envelope → Loop S
send l env =
    if is_system (class env.frame)
    then record l { system = l.system ++ env ∷ [] }
    else record l { normal = l.normal ++ env ∷ [] }

-- A kept terminal that goes back to the loop.
pub is_kept_terminal : Envelope → Bool
is_kept_terminal env = is_downstream env.direction && is_terminal env.frame

pub record Drained : Type 0 where
  pub forwarded : List Envelope
  pub terminal : Option Envelope
  pub left : List Envelope

abbrev forward : Envelope → Drained → Drained
forward env d = record d { forwarded = env ∷ d.forwarded }

-- `drain_on_interruption`: what it forwards, the terminal it returns, and what stays queued.
pub drain_on_interruption : List Envelope → Drained
unfolding is_kept_terminal
drain_on_interruption [] = record { forwarded = []; terminal = none; left = [] }
drain_on_interruption (env ∷ queue) =
    let rest = drain_on_interruption queue in
    if uninterruptible env.frame
    then (if is_kept_terminal env
        then record { forwarded = []; terminal = some env; left = queue }
        else forward env rest)
    else rest

module _ {S : Type 0} (p : Processor S) (link : Link) where
  -- `link.push(env)`
  abbrev pub push_out : Envelope → Loop S → Loop S
  push_out env l = record l { sent = l.sent ++ push link env }

  -- `link.push_error(e.to_string(), false)`, where a hook failed.
  pub push_error : Option Text → Loop S → Loop S
  push_error none l = l
  push_error (some message) l =
      let frame = error message false (some link.name) in
      record l {
        next_id = l.next_id + 1;
        sent =
            l.sent
            ++ push link
                (record { meta = new_meta l.next_id frame; frame = frame; direction = upstream });
      }

  -- `stop()`, forward, and leave the loop unless the frame is `Stop`.
  pub terminate : Envelope → Loop S → Loop S
  unfolding stop_reason push_error
  terminate env l =
      let hook = p.on_stop l.state (stop_reason env.frame) in
      let l' = push_out env (push_error hook.1 (record l { state = hook.0 })) in
      if is_stop env.frame then l' else record l' { running = false }

  pub finish_interruption : Option Envelope → Loop S → Loop S
  unfolding terminate
  finish_interruption none l = l
  finish_interruption (some env) l = terminate env l

  -- The arm of `Frame::Interruption`.
  pub interrupt : Envelope → Loop S → Loop S
  unfolding drain_on_interruption push_error finish_interruption push_all
  interrupt env l =
      let d = drain_on_interruption l.normal in
      let drained = record l { normal = d.left; sent = l.sent ++ push_all link d.forwarded } in
      let hook = p.on_interruption l.state in
      finish_interruption d.terminal
        (push_out env (push_error hook.1 (record drained { state = hook.0 })))

  -- The arm of `Frame::Start`.
  pub start_up : StartParams → Envelope → Loop S → Loop S
  unfolding push_error
  start_up params env l =
      let hook = p.on_start l.state params in
      push_out env (push_error hook.1 (record l { state = hook.0 }))

  -- The last arm.
  pub process : Envelope → Loop S → Loop S
  unfolding push_error push_all
  process env l =
      let reply = p.process_frame l.state env l.next_id in
      push_error reply.failed (record l {
        state = reply.state;
        next_id = reply.next_id;
        sent = l.sent ++ push_all link reply.pushed;
      })

  -- An upstream `Cancel`, `End` or `Stop` is a request, and goes to the processor.
  pub lifecycle : Envelope → Loop S → Loop S
  unfolding terminate process
  lifecycle env l = if is_downstream env.direction then terminate env l else process env l

  pub handle_frame : Frame → Envelope → Loop S → Loop S
  unfolding start_up interrupt lifecycle process
  handle_frame (start params) env l = start_up params env l
  handle_frame interruption env l = interrupt env l
  handle_frame (cancel _) env l = lifecycle env l
  handle_frame (end_of_task _) env l = lifecycle env l
  handle_frame stop env l = lifecycle env l
  handle_frame _ env l = process env l

  receive : List Envelope → List Envelope → Loop S → Loop S
  unfolding handle_frame
  receive (env ∷ urgent) queue l = handle_frame env.frame env (record l { system = urgent })
  receive [] (env ∷ queue) l = handle_frame env.frame env (record l { normal = queue })
  receive [] [] l = if l.closed then record l { running = false } else l

  -- One iteration of `run_processor`: the biased select, then the match. On empty queues it waits, or
  -- leaves the loop if the channels are closed; it does nothing once the loop has been left.
  pub step : Loop S → Loop S
  unfolding receive
  step l = if l.running then receive l.system l.normal l else l
