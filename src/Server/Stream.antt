-- ===== src/Server/Stream.antt =====
-- The event stream of conn_handler: the loop that sends a client each new sample. What epoll_wait,
-- recv and send report, and what the other threads do meanwhile, comes as a list of rounds.
pub mod Versions
pub mod Return
use linux_device_drivers_hw.Base.{
  ℕ, zero, suc, ◌-◌, Bool, true, false, not, ◌&&◌, ◌||◌, List, [], ◌∷◌, ◌++◌, Option, none, some,
  if◌then◌else◌, ltb, ◌==◌, Text, codes, fitted,
}
use mathlib.Core.Option
use linux_device_drivers_hw.Producer.{Floats, SampleFloat}
use linux_device_drivers_hw.Server.Cache.{CachedData, Wake, wait_loop}
use linux_device_drivers_hw.Server.Respond.{json_text}

-- What recv() with MSG_DONTWAIT returns: a number of bytes, 0 at the end of the input, or an error.
pub data Receipt : Type 0 where
  received : ℕ → Receipt
  refused : Receipt

-- What one epoll_wait reports. After a quiet one: the flag `running` and the cache as the wait for
-- new data finds them, the wakes of that wait, the time, and whether send() sends something.
pub data Poll (F : Floats) : Type 0 where
  interrupted : Poll F
  failed : Poll F
  quiet : Bool → CachedData F → List (Wake F) → ℕ → Bool → Poll F
  ready : Bool → Bool → List Receipt → Poll F

-- One round, with the flag `running` as the loop's test reads it.
pub record Round (F : Floats) : Type 0 where
  pub running : Bool
  pub poll : Poll F

-- An event that has been sent, with the version that it tells of.
pub record Event : Type 0 where
  pub version : ℕ
  pub text : Text

-- How a round ends: the loop is left, goes on, or goes on after an event has been sent.
pub data Next : Type 0 where
  leave : Next
  again : Next
  emitted : Event → Next

-- What follows a round: the end of the loop, or its further rounds from a last version.
unfoldable pub go_on : Option Next → ℕ → (ℕ → Option (List Event)) → Option (List Event)
go_on none last_version rest = none
go_on (some leave) last_version rest = some []
go_on (some again) last_version rest = rest last_version
go_on (some (emitted e)) last_version rest =
    Option.map (λ (es : List Event). e ∷ es) (rest e.version)

-- The loop that drains the input, of 256 bytes a call; `true` when it has ended.
unfoldable pub drain : List Receipt → Bool
drain [] = false
drain (refused ∷ rs) = true
drain (received n ∷ rs) =
    let rest = drain rs in if n == 0 then true else if ltb n 256 then true else rest

-- The events of a poll: a hang-up or an error leaves, input is drained.
unfoldable pub ready_round : Bool → Bool → List Receipt → Option Next
unfolding drain
ready_round true readable rs = some leave
ready_round false true rs = if drain rs then some again else none
ready_round false false rs = some again

module _ (F : Floats) (float_text : F.Float → Text) where
  -- The text of an event: the JSON as the buffer of 1024 bytes holds it, in a field.
  unfoldable pub event_text : CachedData F → ℕ → Text
  event_text c timestamp =
      codes "data: "
      ++ (fitted 1024 (json_text F float_text c.current_sample c.average timestamp) ++ codes "\n\n")

  -- What the loop does with the cache that the wait has brought.
  unfoldable pub send_event : ℕ → ℕ → Bool → CachedData F → Next
  unfolding event_text
  send_event last_version timestamp sent c =
      if c.version == last_version
      then again
      else if sent
      then emitted (record { version = c.version; text = event_text c timestamp })
      else leave

  -- A round that is run; `none` while it still waits.
  unfoldable pub sse_round : ℕ → Poll F → Option Next
  unfolding send_event ready_round
  sse_round last_version interrupted = some again
  sse_round last_version failed = some leave
  sse_round last_version (quiet running c ws timestamp sent) =
      Option.map (send_event last_version timestamp sent) (wait_loop last_version ws running c)
  sse_round last_version (ready hang_up readable rs) = ready_round hang_up readable rs

  -- The loop from a last version, with the events that it sends; `none` while it goes on.
  unfoldable pub sse_loop : List (Round F) → ℕ → Option (List Event)
  unfolding go_on
  sse_loop [] last_version = none
  sse_loop (r ∷ rs) last_version =
      if r.running
      then go_on (sse_round last_version r.poll) last_version (sse_loop rs)
      else some []
